-- ===== src/Base/Text.antt =====
-- Decimal numbers and the joining of texts, as `fmt.Sprintf` makes names with `%s` and `%d`.
use Prim.Native.Nat.{ℕ, zero, suc, ◌/◌, ◌%◌}
use Prim.Native.String
use Prim.Native.String.{String}
use text.Mathlib.Text.{find?}
use mathlib.Core.Bool.{Bool, true, false}
use mathlib.Core.Option.{none, some}
use mole_port.Base.Tests.{ltb, if◌then◌else◌}
use mole_port.Base.Int.{ℤ, pos, negsuc}

-- a + b on strings
infixr 65 ◌<>◌
abbrev pub ◌<>◌ : String → String → String
a <> b = String.◌++◌ a b

unfoldable pub digit : ℕ → String
digit zero = "0"
digit (suc zero) = "1"
digit (suc (suc zero)) = "2"
digit (suc (suc (suc zero))) = "3"
digit (suc (suc (suc (suc zero)))) = "4"
digit (suc (suc (suc (suc (suc zero))))) = "5"
digit (suc (suc (suc (suc (suc (suc zero)))))) = "6"
digit (suc (suc (suc (suc (suc (suc (suc zero))))))) = "7"
digit (suc (suc (suc (suc (suc (suc (suc (suc zero)))))))) = "8"
digit _ = "9"

-- The fuel is the number itself, which has fewer digits than that.
unfoldable pub itoa_fuel : ℕ → ℕ → String
unfolding digit
itoa_fuel zero n = digit n
itoa_fuel (suc f) n =
    let front = itoa_fuel f (n / 10) in if ltb n 10 then digit n else front <> digit (n % 10)

-- strconv.Itoa, `%d`
unfoldable pub itoa : ℕ → String
unfolding itoa_fuel
itoa n = itoa_fuel n n

-- `%d` of a value that may be negative
unfoldable pub itoa_ℤ : ℤ → String
unfolding itoa
itoa_ℤ (pos n) = itoa n
itoa_ℤ (negsuc n) = "-" <> itoa (suc n)

-- strings.Contains
abbrev pub contains : String → String → Bool
contains s t = elim (find? s t) [ none ↦ false | some i ↦ true ]
