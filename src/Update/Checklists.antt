-- ===== src/Update/Checklists.antt =====
-- internal/core/update/updater.go: verifyChecksum on a list of checksums in its standard form.
use mole_port.Base.{
  ==_iff, All, List, Option, [], ap, append_assoc, append_nil, arith, false, if◌then◌else◌, none,
  refl, some, sym, ℕ, ◌++◌, ◌==◌, ◌∙◌, ◌∷◌, ◌≡◌,
}
use mole_port.Update.Texts.{
  drop_while, is_space, newline, onto_first, reverse_onto, same_text, space, split_lines, split_two,
  trim_right, trim_space,
}
use mole_port.Update.Checksums.{
  ChecksumError, checksum_mismatch, checksum_not_found, compare_checksum, parse_line,
  verify_checksum, verify_lines,
}

-- A digest or a name of a file: a text without space
abbrev pub IsWord : List ℕ → Type 0
IsWord [] = ⊥
IsWord (c ∷ s) = All (λ d. is_space d ≡ false) (c ∷ s)

-- An entry is a digest and the name of its file; each is printed on a line, with two spaces between.
abbrev pub print_list : List (List ℕ × List ℕ) → List ℕ
print_list [] = []
print_list ((digest, name) ∷ entries) =
    (digest ++ (space ∷ space ∷ name)) ++ (newline ∷ print_list entries)

abbrev pub AreWords : List (List ℕ × List ℕ) → Type 0
AreWords [] = Unit
AreWords ((digest, name) ∷ entries) = IsWord digest × IsWord name × AreWords entries

-- The first entry for the file decides, by whether its digest is that of the data.
abbrev pub decide : List ℕ → List ℕ → List (List ℕ × List ℕ) → Option ChecksumError
decide actual filename [] = some (checksum_not_found filename)
decide actual filename ((digest, name) ∷ entries) =
    let rest = decide actual filename entries in
    if same_text name filename
    then (if same_text digest actual then none else some (checksum_mismatch filename digest actual))
    else rest

same_text-sym : (s t : List ℕ) → same_text s t ≡ same_text t s
same_text-sym [] [] = refl
same_text-sym [] (d ∷ t) = refl
same_text-sym (c ∷ s) [] = refl
same_text-sym (c ∷ s) (d ∷ t) = ground (arith, same_text-sym s t, ==_iff c d, ==_iff d c)

compare_checksum_lem :
    (filename actual digest : List ℕ)
    → compare_checksum filename actual digest
      ≡ (if same_text digest actual then none else some (checksum_mismatch filename digest actual))
unfolding compare_checksum
compare_checksum_lem filename actual digest = ground (arith, same_text-sym actual digest)

IsWord-All : (s : List ℕ) → IsWord s → All (λ c. is_space c ≡ false) s
IsWord-All [] w = tt
IsWord-All (c ∷ s) w = w

not_newline : (c : ℕ) → is_space c ≡ false → (c == newline) ≡ false
unfolding is_space
not_newline c h = ground (arith, h)

not_space : (c : ℕ) → is_space c ≡ false → (c == space) ≡ false
unfolding is_space
not_space c h = ground (arith, h)

-- A line up to its end
split_lines-word :
    (a s : List ℕ) (line : List ℕ) (lines : List (List ℕ))
    → All (λ d. is_space d ≡ false) a
    → split_lines s ≡ line ∷ lines
    → split_lines (a ++ s) ≡ (a ++ line) ∷ lines
unfolding split_lines
split_lines-word [] s line lines w h = h
split_lines-word (c ∷ a) s line lines (n, w) h =
    rw (split_lines, not_newline c n, split_lines-word a s line lines w h) refl

split_lines-list :
    (digest name s : List ℕ)
    → IsWord digest
    → IsWord name
    → split_lines ((digest ++ (space ∷ space ∷ name)) ++ (newline ∷ s))
      ≡ (digest ++ (space ∷ space ∷ name)) ∷ split_lines s
unfolding split_lines
split_lines-list digest name s wd wn =
    let later = split_lines-word name (newline ∷ s) [] (split_lines s) (IsWord-All name wn) refl in
    ap split_lines (append_assoc digest (space ∷ space ∷ name) (newline ∷ s))
    ∙ split_lines-word digest (space ∷ space ∷ (name ++ (newline ∷ s))) (space ∷ space ∷ name)
        (split_lines s) (IsWord-All digest wd)
        (ap (λ lines. onto_first space (onto_first space lines)) later
          ∙ ap (λ t. (space ∷ space ∷ t) ∷ split_lines s) (append_nil name))

reverse_onto-append : (s t u : List ℕ) → reverse_onto (s ++ t) u ≡ reverse_onto t (reverse_onto s u)
reverse_onto-append [] t u = refl
reverse_onto-append (c ∷ s) t u = reverse_onto-append s t (c ∷ u)

reverse_onto-twice : (s t u : List ℕ) → reverse_onto (reverse_onto s u) t ≡ reverse_onto u (s ++ t)
reverse_onto-twice [] t u = refl
reverse_onto-twice (c ∷ s) t u = reverse_onto-twice s t (c ∷ u)

drop_while-reverse_onto :
    (s u : List ℕ)
    → All (λ d. is_space d ≡ false) s
    → drop_while is_space u ≡ u
    → drop_while is_space (reverse_onto s u) ≡ reverse_onto s u
drop_while-reverse_onto [] u w h = h
drop_while-reverse_onto (c ∷ s) u (n, w) h = drop_while-reverse_onto s (c ∷ u) w (rw (n) refl)

-- A text that ends in a word ends in no space.
trim_right-word : (s w : List ℕ) → IsWord w → trim_right is_space (s ++ w) ≡ s ++ w
trim_right-word s [] n = elim n [ ]
trim_right-word s (c ∷ w) (n, ns) =
    let u = reverse_onto s [] in
    ap (λ r. reverse_onto (drop_while is_space r) []) (reverse_onto-append s (c ∷ w) [])
    ∙ ap (λ r. reverse_onto r []) (drop_while-reverse_onto w (c ∷ u) ns (rw (n) refl))
    ∙ reverse_onto-twice w [] (c ∷ u)
    ∙ reverse_onto-twice s (c ∷ (w ++ [])) []
    ∙ ap (λ t. s ++ (c ∷ t)) (append_nil w)

split_two-word :
    (d n : List ℕ)
    → All (λ c. is_space c ≡ false) d
    → split_two (d ++ (space ∷ space ∷ n)) ≡ some (d, n)
unfolding split_two
split_two-word [] n w = refl
split_two-word (c ∷ []) n (e, w) = rw (split_two, not_space c e) refl
split_two-word (c ∷ c2 ∷ d) n (e, w) =
    rw (split_two, not_space c e, split_two-word (c2 ∷ d) n w) refl

drop_while-word : (w s : List ℕ) → IsWord w → drop_while is_space (w ++ s) ≡ w ++ s
drop_while-word [] s n = elim n [ ]
drop_while-word (c ∷ w) s (n, ns) = rw (n) refl

trim_space-word : (w : List ℕ) → IsWord w → trim_space w ≡ w
unfolding trim_space
trim_space-word w n =
    ap (trim_right is_space)
      (ap (drop_while is_space) (sym (append_nil w)) ∙ drop_while-word w [] n ∙ append_nil w)
    ∙ trim_right-word [] w n

trim_space-entry :
    (digest name : List ℕ)
    → IsWord digest
    → IsWord name
    → trim_space (digest ++ (space ∷ space ∷ name)) ≡ digest ++ (space ∷ space ∷ name)
unfolding trim_space
trim_space-entry digest name wd wn =
    ap (trim_right is_space) (drop_while-word digest (space ∷ space ∷ name) wd)
    ∙ ap (trim_right is_space) (sym (append_assoc digest (space ∷ space ∷ []) name))
    ∙ trim_right-word (digest ++ (space ∷ space ∷ [])) name wn
    ∙ append_assoc digest (space ∷ space ∷ []) name

parse_line-entry :
    (digest name : List ℕ)
    → IsWord digest
    → IsWord name
    → parse_line (digest ++ (space ∷ space ∷ name)) ≡ some (digest, name)
unfolding parse_line
parse_line-entry [] name wd wn = elim wd [ ]
parse_line-entry (c ∷ digest) name wd wn = split_two-word (c ∷ digest) name wd

verify_lines-empty :
    (actual filename : List ℕ)
    → verify_lines actual filename (split_lines []) ≡ some (checksum_not_found filename)
unfolding verify_lines split_lines trim_space parse_line
verify_lines-empty actual filename = refl

verify_lines-list :
    (actual filename : List ℕ) (entries : List (List ℕ × List ℕ))
    → AreWords entries
    → verify_lines actual filename (split_lines (print_list entries))
      ≡ decide actual filename entries
unfolding verify_lines
verify_lines-list actual filename [] w = verify_lines-empty actual filename
verify_lines-list actual filename ((digest, name) ∷ entries) (wd, wn, w) =
    rw
      (
        split_lines-list digest name (print_list entries) wd wn,
        verify_lines,
        trim_space-entry digest name wd wn,
        parse_line-entry digest name wd wn,
        trim_space-word name wn,
        trim_space-word digest wd,
        verify_lines-list actual filename entries w,
        compare_checksum_lem filename actual digest,
      )
      refl

-- On a list of checksums in its standard form, with one line for each of its entries, the check of a file's checksum
-- accepts just where the first entry that has the file's name has the SHA-256 of the data as its digest, and
-- refuses another digest, or that no entry has the name, with the error that says so. The digests and the names are texts without space that are not empty.
pub verify_checksum-decide :
    (sha decode : List ℕ → List ℕ) (bytes checksums filename : List ℕ)
    (entries : List (List ℕ × List ℕ))
    → AreWords entries
    → decode checksums ≡ print_list entries
    → verify_checksum sha decode bytes checksums filename ≡ decide (sha bytes) filename entries
unfolding verify_checksum
verify_checksum-decide sha decode bytes checksums filename entries w h =
    ap (λ text. verify_lines (sha bytes) filename (split_lines text)) h
    ∙ verify_lines-list (sha bytes) filename entries w
