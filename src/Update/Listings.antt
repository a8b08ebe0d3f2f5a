-- ===== src/Update/Listings.antt =====
-- internal/core/update/updater.go: a checksum that verifyChecksum accepts is in the list.
use mole_port.Base.{
  ==_iff, Bool-cases, List, Option, Option-cases, [], ap, ap₂, arith, inl, inr, none, refl, some,
  some-none, sym, true, ℕ, ◌&&◌, ◌++◌, ◌==◌, ◌∙◌, ◌∷◌, ◌≡◌, ◌⊎◌,
}
use mole_port.Update.Texts.{onto_left, same_text, space, split_two, trim_space}
use mole_port.Update.Checksums.{checksum_not_found, compare_checksum, parse_line, verify_lines}

-- A list of checksums has a line with the digest, two spaces and the name of the file, up to the space around them.
unfoldable pub Lists : List ℕ → List ℕ → List (List ℕ) → Type 0
Lists digest filename [] = ⊥
Lists digest filename (line ∷ lines) =
    ((d : List ℕ) × (n : List ℕ) × (trim_space line ≡ d ++ (space ∷ space ∷ n))
      × (trim_space n ≡ filename)
      × (trim_space d ≡ digest))
    ⊎ Lists digest filename lines

same_text-path : (s t : List ℕ) → same_text s t ≡ true → s ≡ t
same_text-path [] [] h = refl
same_text-path [] (d ∷ t) h = ground arith
same_text-path (c ∷ s) [] h = ground arith
same_text-path (c ∷ s) (d ∷ t) h =
    ap₂ (λ (x : ℕ) (xs : List ℕ). x ∷ xs) ((==_iff c d).0 (ground arith))
      (same_text-path s t (ground arith))

onto_left-some :
    (c : ℕ) (o : Option (List ℕ × List ℕ)) (d n : List ℕ)
    → onto_left c o ≡ some (d, n)
    → (a : List ℕ) × (o ≡ some (a, n)) × (c ∷ a ≡ d)
onto_left-some c none d n h = ground arith
onto_left-some c (some (a, b)) d n h = (a, ground arith, ground arith)

split_two-some : (s d n : List ℕ) → split_two s ≡ some (d, n) → s ≡ d ++ (space ∷ space ∷ n)
unfolding split_two
split_two-some [] d n h = ground arith
split_two-some (c ∷ []) d n h = ground arith
split_two-some (c ∷ c2 ∷ s) d n h = elim (Bool-cases (c == space && c2 == space)) [
  | inl e ↦ ground (arith, ==_iff c space, ==_iff c2 space)
  | inr e ↦
      let (a, o, is) = onto_left-some c (split_two (c2 ∷ s)) d n (rw (split_two, e) at h) in
      ap (λ (t : List ℕ). c ∷ t) (split_two-some (c2 ∷ s) a n o)
      ∙ ap (λ (t : List ℕ). t ++ (space ∷ space ∷ n)) is
]

parse_line-some : (s d n : List ℕ) → parse_line s ≡ some (d, n) → s ≡ d ++ (space ∷ space ∷ n)
unfolding parse_line
parse_line-some [] d n h = ground arith
parse_line-some (c ∷ s) d n h = split_two-some (c ∷ s) d n h

compare_checksum-none :
    (filename actual expected : List ℕ)
    → compare_checksum filename actual expected ≡ none
    → expected ≡ actual
unfolding compare_checksum
compare_checksum-none filename actual expected h =
    sym (same_text-path actual expected (ground (arith, h)))

pub verify_lines-Lists :
    (actual filename : List ℕ) (lines : List (List ℕ))
    → verify_lines actual filename lines ≡ none
    → Lists actual filename lines
unfolding verify_lines Lists
verify_lines-Lists actual filename [] h = elim (some-none (checksum_not_found filename) h) [ ]
verify_lines-Lists actual filename (line ∷ lines) h =
    elim (Option-cases (parse_line (trim_space line))) [
      | inl e ↦ inr (verify_lines-Lists actual filename lines (rw (verify_lines, e) at h))
      | inr ((d, n), e) ↦ elim (Bool-cases (same_text (trim_space n) filename)) [
        | inl same ↦ inl (
          d,
          n,
          parse_line-some (trim_space line) d n e,
          same_text-path (trim_space n) filename same,
          compare_checksum-none filename actual (trim_space d) (rw (verify_lines, e, same) at h),
        )
        | inr differ ↦
            inr (verify_lines-Lists actual filename lines (rw (verify_lines, e, differ) at h))
      ]
    ]
