-- ===== src/Update/Checksums.antt =====
-- internal/core/update/updater.go: verifyChecksum. The SHA-256 of the data, in hexadecimal digits, is
-- a parameter.
use mole_port.Base.{List, Option, [], if◌then◌else◌, none, not, some, ℕ, ◌∷◌}
use mole_port.Update.Texts.{same_text, split_lines, split_two, trim_space}

-- Why verifyChecksum refuses; the texts of its errors print these fields.
pub data ChecksumError : Type 0 where
  checksum_mismatch : List ℕ → List ℕ → List ℕ → ChecksumError
  checksum_not_found : List ℕ → ChecksumError

-- A line for the file that is looked for
unfoldable pub compare_checksum : List ℕ → List ℕ → List ℕ → Option ChecksumError
compare_checksum filename actual expected =
    if not (same_text actual expected)
    then some (checksum_mismatch filename expected actual)
    else none

-- What a line says: its entry, where it has the form of one
unfoldable pub parse_line : List ℕ → Option (List ℕ × List ℕ)
unfolding trim_space split_two
parse_line [] = none
parse_line (c ∷ s) = split_two (c ∷ s)

-- The loop over the lines
unfoldable pub verify_lines : List ℕ → List ℕ → List (List ℕ) → Option ChecksumError
unfolding compare_checksum parse_line
verify_lines actual filename [] = some (checksum_not_found filename)
verify_lines actual filename (line ∷ lines) =
    let rest = verify_lines actual filename lines in
    elim (parse_line (trim_space line)) [
      | none ↦ rest
      | some (digest, name) ↦
          if same_text (trim_space name) filename
          then compare_checksum filename actual (trim_space digest)
          else rest
    ]

-- verifyChecksum, `sha` being hex.EncodeToString of sha256.Sum256, and `decode` the text of the bytes
unfoldable pub verify_checksum :
    (List ℕ → List ℕ) → (List ℕ → List ℕ) → List ℕ → List ℕ → List ℕ → Option ChecksumError
unfolding verify_lines split_lines
verify_checksum sha decode bytes checksums filename =
    verify_lines (sha bytes) filename (split_lines (decode checksums))
