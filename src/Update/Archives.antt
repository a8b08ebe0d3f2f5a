-- ===== src/Update/Archives.antt =====
-- internal/core/update/updater.go: extractBinary. Opening the gzip stream and reading the tar file in it
-- is a parameter, which gives the sequence of answers of the reader's method `Next`.
use mole_port.Base.{Bool, List, String, if◌then◌else◌, ℕ, ◌&&◌, ◌<>◌, ◌==◌}
use mole_port.Core.Errors.{Error, Result, err, other, wrap}
use mole_port.Update.Texts.{base_name, runes, same_text}
use mole_port.Update.Http.{Body, as_error}
use mole_port.Update.Downloads.{read_sized}
use mole_port.Core.Errors.{◌>>=◌}

-- tar.Header
pub record TarHeader : Type 0 where
  pub name : List ℕ
  pub type_flag : ℕ

-- tar.TypeReg
abbrev pub type_reg : ℕ
type_reg = 48

-- io.EOF, another error, or an entry with its contents and the answers behind it
pub data Archive : Type 0 where
  eof : Archive
  broken : Error → Archive
  entry : TarHeader → Body → Archive → Archive

unfoldable pub is_binary : String → TarHeader → Bool
unfolding base_name
is_binary binary_name header =
    same_text (base_name header.name) (runes binary_name) && header.type_flag == type_reg

-- The loop over the entries
unfoldable pub extract_entry : String → Archive → Result (List ℕ)
unfolding is_binary read_sized
extract_entry binary_name eof = err (other ("file " <> binary_name <> " not found in archive"))
extract_entry binary_name (broken e) = err (wrap "read tar" e)
extract_entry binary_name (entry header body next) =
    let later = extract_entry binary_name next in
    if is_binary binary_name header
    then read_sized "read file from tar" "extracted file exceeds maximum size" body
    else later

-- extractBinary
unfoldable pub extract_binary : (List ℕ → Result Archive) → List ℕ → String → Result (List ℕ)
unfolding extract_entry
extract_binary gunzip bytes binary_name =
    as_error "open gzip" (gunzip bytes) >>= λ archive. extract_entry binary_name archive
