-- ===== src/Update/Placed.antt =====
-- internal/core/update/updater.go: where Update puts the program.
use mole_port.Base.{
  List, Map, Option, String, [], ap, arith, eq_iff, eq_refl, none, put_self, refl, some, some-none,
  subst, sym, ℕ, ◌++◌, ◌∙◌, ◌∷◌, ◌≡◌, ◌≢◌,
}
use mole_port.Core.Errors.{Error, Result, err, ok, wrap}
use mole_port.Update.Checker.{VersionChecker}
use mole_port.Update.Updater.{Staged, Tools, exec_path_of, install, install_at, replaced}
use mole_port.Update.Replacing.{
  Faults, File, FilePath, opened_mode, path_of, remove_after, rename_file, rename_over,
  replace_binary, stat_mode, temp_path, write_and_rename, write_file,
}

-- The path holds the program, and no temporary file is left.
unfoldable pub Holds : FilePath → List ℕ → Map File → Type 0
Holds path binary files =
    ((f : File) × (files (path_of path) ≡ some f) × (f.content ≡ binary))
    × (files (temp_path path) ≡ none)

rename_file-moves :
    (fault : Option Error) (old new : String) (f : File) (files : Map File)
    → old ≢ new
    → files old ≡ some f
    → (rename_file fault old new files).0 ≡ none
    → ((rename_file fault old new files).1 new ≡ some f)
      × ((rename_file fault old new files).1 old ≡ none)
unfolding rename_file
rename_file-moves (some e) old new f files ne h done = ground arith
rename_file-moves none old new f files ne h done =
    ground (arith, h, eq_iff old new, eq_refl new, eq_refl old)

remove_after-none :
    (s : String) (faults : Faults) (path : FilePath) (x : Option Error × Map File)
    → (remove_after s faults path x).0 ≡ none
    → (x.0 ≡ none) × ((remove_after s faults path x).1 ≡ x.1)
unfolding remove_after
remove_after-none s faults path (none, files) h = (refl, refl)
remove_after-none s faults path (some e, files) h = ground arith

write_file-Holds :
    (masked : ℕ → ℕ) (fault : Option (Error × Option (List ℕ))) (p : String) (bytes : List ℕ)
    (mode : ℕ) (files : Map File)
    → (write_file masked fault p bytes mode files).0 ≡ none
    → (f : File) × ((write_file masked fault p bytes mode files).1 p ≡ some f) × (f.content ≡ bytes)
unfolding write_file
write_file-Holds masked none p bytes mode files h =
    (record { content = bytes; mode = opened_mode masked mode (files p) }, put_self files p _, refl)
write_file-Holds masked (some (e, none)) p bytes mode files h = elim (some-none e h) [ ]
write_file-Holds masked (some (e, some part)) p bytes mode files h = elim (some-none e h) [ ]

rename_over-Holds :
    (faults : Faults) (path : FilePath) (binary : List ℕ) (x : Option Error × Map File)
    → temp_path path ≢ path_of path
    → (x.0 ≡ none → (f : File) × (x.1 (temp_path path) ≡ some f) × (f.content ≡ binary))
    → (rename_over faults path x).0 ≡ none
    → Holds path binary (rename_over faults path x).1
unfolding rename_over Holds remove_after
rename_over-Holds faults path binary (some e, files) ne was h =
    elim (some-none (wrap "write temp file" e) h) [ ]
rename_over-Holds faults path binary (none, files) ne was h =
    let moved = rename_file faults.rename (temp_path path) (path_of path) files in
    let (f, there, same) = was refl in
    let (done, kept) = remove_after-none "rename temp file" faults path moved h in
    let (new, old) =
      rename_file-moves faults.rename (temp_path path) (path_of path) f files ne there done in
    (
      (f, ap (λ (fs : Map File). fs (path_of path)) kept ∙ new, same),
      ap (λ (fs : Map File). fs (temp_path path)) kept ∙ old,
    )

write_and_rename-Holds :
    (masked : ℕ → ℕ) (faults : Faults) (path : FilePath) (bytes : List ℕ) (files : Map File)
    (o : Result ℕ)
    → temp_path path ≢ path_of path
    → (write_and_rename masked faults path bytes files o).0 ≡ none
    → Holds path bytes (write_and_rename masked faults path bytes files o).1
unfolding write_and_rename
write_and_rename-Holds masked faults path bytes files (err e) ne h =
    elim (some-none (wrap "stat executable" e) h) [ ]
write_and_rename-Holds masked faults path bytes files (ok mode) ne h =
    rename_over-Holds faults path bytes
      (write_file masked faults.write (temp_path path) bytes mode files) ne
      (write_file-Holds masked faults.write (temp_path path) bytes mode files) h

replaced-none :
    (stages : List String) (vc : VersionChecker) (x : Option Error × Map File)
    → (replaced stages vc x).error ≡ none
    → (x.0 ≡ none) × ((replaced stages vc x).files ≡ x.1)
replaced-none stages vc (none, files) h = (refl, refl)
replaced-none stages vc (some e, files) h = elim (some-none (wrap "replace binary" e) h) [ ]

-- A program has been installed at the path that the updater has or that the system gives.
unfoldable pub IsInstalled : Tools → Option FilePath → List ℕ → Map File → Type 0
IsInstalled tools exec binary files =
    (path : FilePath) × (exec_path_of tools exec ≡ ok path) × Holds path binary files

install_at-IsInstalled :
    (tools : Tools) (faults : Faults) (exec : Option FilePath) (files : Map File)
    (vc : VersionChecker) (stages : List String) (binary : List ℕ) (at : Result FilePath)
    → exec_path_of tools exec ≡ at
    → ((path : FilePath) → at ≡ ok path → temp_path path ≢ path_of path)
    → (install_at tools faults files vc stages binary at).error ≡ none
    → IsInstalled tools exec binary (install_at tools faults files vc stages binary at).files
unfolding install_at replace_binary IsInstalled
install_at-IsInstalled tools faults exec files vc stages binary (err e) is ne h =
    elim (some-none e h) [ ]
install_at-IsInstalled tools faults exec files vc stages binary (ok path) is ne h =
    let x = replace_binary tools.masked faults path binary files in
    let (done, kept) = replaced-none stages vc x h in
    (
      path,
      is,
      subst (λ fs. Holds path binary fs) (sym kept)
          (write_and_rename-Holds tools.masked faults path binary files
            (stat_mode faults.stat (files (path_of path))) (ne path refl) done),
    )

pub install-IsInstalled :
    (tools : Tools) (faults : Faults) (exec : Option FilePath) (files : Map File)
    (vc : VersionChecker) (x : Staged (List ℕ))
    → ((path : FilePath) → exec_path_of tools exec ≡ ok path → temp_path path ≢ path_of path)
    → (install tools faults exec files vc x).error ≡ none
    → (binary : List ℕ) × (x.1 ≡ ok binary)
      × IsInstalled tools exec binary (install tools faults exec files vc x).files
unfolding install
install-IsInstalled tools faults exec files vc (stages, err e) ne h = elim (some-none e h) [ ]
install-IsInstalled tools faults exec files vc (stages, ok binary) ne h = (
  binary,
  refl,
  install_at-IsInstalled tools faults exec files vc (stages ++ ("replacing" ∷ [])) binary
      (exec_path_of tools exec) refl ne h,
)
