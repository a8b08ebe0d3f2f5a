-- ===== src/Update/Replacing.antt =====
-- internal/core/update/updater.go: replaceBinary, on the files of the machine. A system call that fails
-- does so as a record of faults says.
use mole_port.Base.{List, Map, Option, String, delete, none, put, some, ℕ, ◌<>◌}
use mole_port.Core.Errors.{Error, Result, err, ok, other, wrap}

pub record File : Type 0 where
  pub content : List ℕ
  pub mode : ℕ

-- How each call fails: `write` says what of the contents was written, if the file was opened at all.
pub record Faults : Type 0 where
  pub stat : Option Error
  pub write : Option (Error × Option (List ℕ))
  pub rename : Option Error
  pub remove : Option Error

-- A path by its directory and its name in it
pub record FilePath : Type 0 where
  pub dir : String
  pub base : String

abbrev pub path_of : FilePath → String
path_of p = p.dir <> "/" <> p.base

-- tmpPath
abbrev pub temp_path : FilePath → String
temp_path p = p.dir <> "/" <> ".moleport.update.tmp"

-- os.Stat: the mode
unfoldable pub stat_mode : Option Error → Option File → Result ℕ
stat_mode (some e) file = err e
stat_mode none none = err (other "no such file or directory")
stat_mode none (some f) = ok f.mode

-- The mode of a file that is opened for writing: that of a file which is there stays.
abbrev pub opened_mode : (ℕ → ℕ) → ℕ → Option File → ℕ
opened_mode masked mode none = masked mode
opened_mode masked mode (some f) = f.mode

-- os.WriteFile, `masked` being the mode without the bits of the process's mask
unfoldable pub write_file :
    (ℕ → ℕ)
    → Option (Error × Option (List ℕ))
    → String
    → List ℕ
    → ℕ
    → Map File
    → Option Error × Map File
write_file masked none path bytes mode files =
    (none, put files path (record { content = bytes; mode = opened_mode masked mode (files path) }))
write_file masked (some (e, none)) path bytes mode files = (some e, files)
write_file masked (some (e, some part)) path bytes mode files = (
  some e,
  put files path (record { content = part; mode = opened_mode masked mode (files path) }),
)

-- os.Remove
unfoldable pub remove_file : Option Error → String → Map File → Map File
remove_file (some e) path files = files
remove_file none path files = delete files path

-- os.Rename onto a path that may have a file
unfoldable pub rename_file : Option Error → String → String → Map File → Option Error × Map File
rename_file (some e) old new files = (some e, files)
rename_file none old new files = elim (files old) [
  | none ↦ (some (other "no such file or directory"), files)
  | some f ↦ (none, delete (put files new f) old)
]

-- `_ = os.Remove(tmpPath)` where the call before it has failed
unfoldable pub remove_after :
    String → Faults → FilePath → Option Error × Map File → Option Error × Map File
unfolding remove_file
remove_after s faults path (none, files) = (none, files)
remove_after s faults path (some e, files) =
    (some (wrap s e), remove_file faults.remove (temp_path path) files)

-- From the answer of os.WriteFile on
unfoldable pub rename_over : Faults → FilePath → Option Error × Map File → Option Error × Map File
unfolding rename_file remove_after
rename_over faults path (some e, files) = remove_after "write temp file" faults path (some e, files)
rename_over faults path (none, files) =
    remove_after "rename temp file" faults path
      (rename_file faults.rename (temp_path path) (path_of path) files)

-- From the answer of os.Stat on
unfoldable pub write_and_rename :
    (ℕ → ℕ) → Faults → FilePath → List ℕ → Map File → Result ℕ → Option Error × Map File
unfolding write_file rename_over
write_and_rename masked faults path bytes files (err e) = (some (wrap "stat executable" e), files)
write_and_rename masked faults path bytes files (ok mode) =
    rename_over faults path (write_file masked faults.write (temp_path path) bytes mode files)

-- replaceBinary
unfoldable pub replace_binary :
    (ℕ → ℕ) → Faults → FilePath → List ℕ → Map File → Option Error × Map File
unfolding write_and_rename stat_mode
replace_binary masked faults path bytes files =
    write_and_rename masked faults path bytes files (stat_mode faults.stat (files (path_of path)))
