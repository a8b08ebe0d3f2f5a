-- ===== src/Update/Texts.antt =====
-- Texts as lists of code points, with what internal/core/update uses of Go's packages `strings` and
-- `filepath`.
use Prim.Native.String as Chars
use Prim.Native.Char.{code}
use mole_port.Base.{
  Bool, List, Option, String, [], false, if◌then◌else◌, leb, none, not, some, true, ℕ, ◌&&◌, ◌==◌,
  ◌||◌, ◌∷◌,
}

-- The code points of a text, which is a list of characters.
abbrev pub runes : String → List ℕ
runes Chars.[] = []
runes (Chars.◌∷◌ c s) = code c ∷ runes s

abbrev pub newline : ℕ
newline = 10

abbrev pub space : ℕ
space = 32

abbrev pub slash : ℕ
slash = 47

abbrev pub same_text : List ℕ → List ℕ → Bool
same_text [] [] = true
same_text [] (d ∷ t) = false
same_text (c ∷ s) [] = false
same_text (c ∷ s) (d ∷ t) = c == d && same_text s t

-- unicode.IsSpace
unfoldable pub is_space : ℕ → Bool
is_space c =
    (leb 9 c && leb c 13)
    || c == 32
    || c == 133
    || c == 160
    || c == 5760
    || (leb 8192 c && leb c 8202)
    || c == 8232
    || c == 8233
    || c == 8239
    || c == 8287
    || c == 12288

abbrev pub reverse_onto : List ℕ → List ℕ → List ℕ
reverse_onto [] s = s
reverse_onto (c ∷ t) s = reverse_onto t (c ∷ s)

abbrev pub drop_while : (ℕ → Bool) → List ℕ → List ℕ
drop_while p [] = []
drop_while p (c ∷ s) = let rest = drop_while p s in if p c then rest else c ∷ s

abbrev pub take_while : (ℕ → Bool) → List ℕ → List ℕ
take_while p [] = []
take_while p (c ∷ s) = let rest = take_while p s in if p c then c ∷ rest else []

-- The text without the end that passes the test.
abbrev pub trim_right : (ℕ → Bool) → List ℕ → List ℕ
trim_right p s = reverse_onto (drop_while p (reverse_onto s [])) []

-- strings.TrimSpace
unfoldable pub trim_space : List ℕ → List ℕ
unfolding is_space
trim_space s = trim_right is_space (drop_while is_space s)

-- A character put before the first of the lines, which are never none.
abbrev pub onto_first : ℕ → List (List ℕ) → List (List ℕ)
onto_first c [] = (c ∷ []) ∷ []
onto_first c (line ∷ lines) = (c ∷ line) ∷ lines

-- strings.SplitSeq(s, "\n")
unfoldable pub split_lines : List ℕ → List (List ℕ)
split_lines [] = [] ∷ []
split_lines (c ∷ s) =
    let lines = split_lines s in if c == newline then [] ∷ lines else onto_first c lines

abbrev pub onto_left : ℕ → Option (List ℕ × List ℕ) → Option (List ℕ × List ℕ)
onto_left c none = none
onto_left c (some (a, b)) = some (c ∷ a, b)

-- strings.SplitN(s, "  ", 2): `none` where it has one part
unfoldable pub split_two : List ℕ → Option (List ℕ × List ℕ)
split_two [] = none
split_two (c ∷ []) = none
split_two (c ∷ d ∷ s) =
    let later = split_two (d ∷ s) in
    if c == space && d == space then some ([], s) else onto_left c later

-- The last element of a path whose slashes at the end are gone.
unfoldable pub last_element : List ℕ → List ℕ
last_element [] = runes "/"
last_element (c ∷ s) =
    reverse_onto (take_while (λ d. not (d == slash)) (reverse_onto (c ∷ s) [])) []

-- filepath.Base
unfoldable pub base_name : List ℕ → List ℕ
unfolding last_element
base_name [] = runes "."
base_name (c ∷ s) = last_element (trim_right (λ d. d == slash) (c ∷ s))
