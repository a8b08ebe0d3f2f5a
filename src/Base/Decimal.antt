-- ===== src/Base/Decimal.antt =====
-- Decimal numbers are distinct for distinct numbers.
use Prim.Native.String as Chars
use Prim.Native.String.append
use Prim.Native.Nat.{ℕ, zero, suc, ◌+◌, ◌*◌, ◌/◌, ◌%◌, ◌<◌, ◌≤◌, ◌-◌}
use Prim.Native.String.{String}
use Prim.Native.Char.{code}
use mathlib.Core.Path.{◌≡◌, refl, sym, ap, ◌∙◌}
use mathlib.Core.Logic.{inl, inr}
use native.Mathlib.Omega.{arith}
use mole_port.Base.Tests.{ltb, Bool-cases}
use mole_port.Base.Text.{◌<>◌, itoa, itoa_fuel, digit}

-- The number that the digits write, behind those of `a`
value_from : ℕ → String → ℕ
value_from a Chars.[] = a
value_from a (Chars.◌∷◌ c s) = value_from (a * 10 + (code c - 48)) s

value_from-append : (a : ℕ) (s t : String) → value_from a (s <> t) ≡ value_from (value_from a s) t
unfolding value_from
value_from-append a Chars.[] t = ap (value_from a) (λ i. append.nil t i)
value_from-append a (Chars.◌∷◌ c s) t =
    ap (value_from a) (λ i. append.cons c s t i) ∙ value_from-append (a * 10 + (code c - 48)) s t

-- The ten digits
value_from-digit : (a n : ℕ) → n < 10 → value_from a (digit n) ≡ a * 10 + n
unfolding value_from digit
value_from-digit a zero h = refl
value_from-digit a (suc zero) h = refl
value_from-digit a (suc (suc zero)) h = refl
value_from-digit a (suc (suc (suc zero))) h = refl
value_from-digit a (suc (suc (suc (suc zero)))) h = refl
value_from-digit a (suc (suc (suc (suc (suc zero))))) h = refl
value_from-digit a (suc (suc (suc (suc (suc (suc zero)))))) h = refl
value_from-digit a (suc (suc (suc (suc (suc (suc (suc zero))))))) h = refl
value_from-digit a (suc (suc (suc (suc (suc (suc (suc (suc zero)))))))) h = refl
value_from-digit a (suc (suc (suc (suc (suc (suc (suc (suc (suc n))))))))) h = omega arith

value_from-itoa_fuel : (f n : ℕ) → n ≤ f → value_from 0 (itoa_fuel f n) ≡ n
unfolding itoa_fuel
value_from-itoa_fuel zero n h = value_from-digit 0 n (omega arith) ∙ omega arith
value_from-itoa_fuel (suc f) n h = elim (Bool-cases (ltb n 10)) [
  | inl small ↦ rw (small) (value_from-digit 0 n (ground arith) ∙ omega arith)
  | inr large ↦ rw (large) (
      value_from-append 0 (itoa_fuel f (n / 10)) (digit (n % 10))
      ∙ ap (λ a. value_from a (digit (n % 10))) (value_from-itoa_fuel f (n / 10) (ground arith))
      ∙ value_from-digit (n / 10) (n % 10) (omega arith)
      ∙ omega arith)
]

pub itoa_injective : (n m : ℕ) → itoa n ≡ itoa m → n ≡ m
unfolding itoa
itoa_injective n m e =
    sym (value_from-itoa_fuel n n (omega arith))
    ∙ ap (value_from 0) e
    ∙ value_from-itoa_fuel m m (omega arith)
