-- ===== src/Update/Installs.antt =====
-- internal/core/update/updater.go: what Update does to the files.
use mole_port.Base.{
  List, Map, Option, Option-cases, String, [], ap, arith, eq_iff, false, if◌then◌else◌, inl, inr,
  none, none-some, refl, some, str_eq, true, ℕ, ◌++◌, ◌∙◌, ◌∷◌, ◌≡◌, ◌≢◌,
}
use mole_port.Core.Errors.{Error, Result, err, ok, other}
use mole_port.Update.Checker.{VersionCheckResult, VersionChecker}
use mole_port.Update.Replacing.{
  Faults, File, FilePath, path_of, remove_after, remove_file, rename_file, rename_over,
  replace_binary, stat_mode, temp_path, write_and_rename, write_file,
}
use mole_port.Update.Updater.{
  Staged, Tools, exec_path_of, failed_at, fetch_binary, install, install_at, replaced, update,
  update_from,
}
use mole_port.Update.Downloads.{Updater}
use mole_port.Update.Checker.{latest_version}

remove_file-keeps :
    (o : Option Error) (p q : String) (files : Map File) → p ≢ q → remove_file o p files q ≡ files q
unfolding remove_file
remove_file-keeps o p q files ne = ground (arith, eq_iff p q)

remove_after-keeps :
    (s : String) (faults : Faults) (path : FilePath) (q : String) (x : Option Error × Map File)
    → temp_path path ≢ q
    → (remove_after s faults path x).1 q ≡ x.1 q
unfolding remove_after
remove_after-keeps s faults path q (none, files) ne = refl
remove_after-keeps s faults path q (some e, files) ne =
    remove_file-keeps faults.remove (temp_path path) q files ne

write_file-keeps :
    (masked : ℕ → ℕ) (w : Option (Error × Option (List ℕ))) (p q : String) (bytes : List ℕ)
    (mode : ℕ) (files : Map File)
    → p ≢ q
    → (write_file masked w p bytes mode files).1 q ≡ files q
unfolding write_file
write_file-keeps masked none p q bytes mode files ne = ground (arith, eq_iff p q)
write_file-keeps masked (some (e, none)) p q bytes mode files ne = refl
write_file-keeps masked (some (e, some part)) p q bytes mode files ne = ground (arith, eq_iff p q)

-- What a rename that fails leaves is what was there.
rename_file-failed :
    (o : Option Error) (old new : String) (files : Map File) (e : Error)
    → (rename_file o old new files).0 ≡ some e
    → (rename_file o old new files).1 ≡ files
unfolding rename_file
rename_file-failed (some e') old new files e h = refl
rename_file-failed none old new files e h = elim (Option-cases (files old)) [
  | inl n ↦ ground (arith, n)
  | inr (f, n) ↦ ground (arith, n, h)
]

remove_after-error :
    (s : String) (faults : Faults) (path : FilePath) (x : Option Error × Map File) (e : Error)
    → (remove_after s faults path x).0 ≡ some e
    → (d : Error) × (x.0 ≡ some d)
unfolding remove_after
remove_after-error s faults path (none, files) e h = elim (none-some e h) [ ]
remove_after-error s faults path (some d, files) e h = (d, refl)

rename_over-keeps :
    (faults : Faults) (path : FilePath) (q : String) (x : Option Error × Map File) (e : Error)
    → temp_path path ≢ q
    → (rename_over faults path x).0 ≡ some e
    → (rename_over faults path x).1 q ≡ x.1 q
unfolding rename_over
rename_over-keeps faults path q (some d, files) e ne h =
    remove_after-keeps "write temp file" faults path q (some d, files) ne
rename_over-keeps faults path q (none, files) e ne h =
    let moved = rename_file faults.rename (temp_path path) (path_of path) files in
    let (d, was) = remove_after-error "rename temp file" faults path moved e h in
    remove_after-keeps "rename temp file" faults path q moved ne
    ∙ ap (λ (f : Map File). f q)
        (rename_file-failed faults.rename (temp_path path) (path_of path) files d was)

write_and_rename-keeps :
    (masked : ℕ → ℕ) (faults : Faults) (path : FilePath) (bytes : List ℕ) (files : Map File)
    (o : Result ℕ) (q : String) (e : Error)
    → temp_path path ≢ q
    → (write_and_rename masked faults path bytes files o).0 ≡ some e
    → (write_and_rename masked faults path bytes files o).1 q ≡ files q
unfolding write_and_rename
write_and_rename-keeps masked faults path bytes files (err d) q e ne h = refl
write_and_rename-keeps masked faults path bytes files (ok mode) q e ne h =
    rename_over-keeps faults path q
      (write_file masked faults.write (temp_path path) bytes mode files) e ne h
    ∙ write_file-keeps masked faults.write (temp_path path) q bytes mode files ne

-- What Update leaves of the files, for the result of steps 1 to 7.
replaced-keeps :
    (stages : List String) (vc : VersionChecker) (x : Option Error × Map File) (before : Map File)
    (q : String) (e : Error)
    → ((d : Error) → x.0 ≡ some d → x.1 q ≡ before q)
    → (replaced stages vc x).error ≡ some e
    → (replaced stages vc x).files q ≡ before q
replaced-keeps stages vc (none, files) before q e keeps h = elim (none-some e h) [ ]
replaced-keeps stages vc (some d, files) before q e keeps h = keeps d refl

install_at-keeps :
    (tools : Tools) (faults : Faults) (files : Map File) (vc : VersionChecker)
    (stages : List String) (binary : List ℕ) (at : Result FilePath) (q : String) (e : Error)
    → ((path : FilePath) → at ≡ ok path → temp_path path ≢ q)
    → (install_at tools faults files vc stages binary at).error ≡ some e
    → (install_at tools faults files vc stages binary at).files q ≡ files q
unfolding install_at replace_binary
install_at-keeps tools faults files vc stages binary (err d) q e ne h = refl
install_at-keeps tools faults files vc stages binary (ok path) q e ne h =
    replaced-keeps stages vc (replace_binary tools.masked faults path binary files) files q e
      (λ d was.
        write_and_rename-keeps tools.masked faults path binary files
          (stat_mode faults.stat (files (path_of path))) q d (ne path refl) was)
      h

install-keeps :
    (tools : Tools) (faults : Faults) (exec : Option FilePath) (files : Map File)
    (vc : VersionChecker) (x : Staged (List ℕ)) (q : String) (e : Error)
    → ((path : FilePath) → exec_path_of tools exec ≡ ok path → temp_path path ≢ q)
    → (install tools faults exec files vc x).error ≡ some e
    → (install tools faults exec files vc x).files q ≡ files q
unfolding install
install-keeps tools faults exec files vc (stages, err d) q e ne h = refl
install-keeps tools faults exec files vc (stages, ok binary) q e ne h =
    install_at-keeps tools faults files vc (stages ++ ("replacing" ∷ [])) binary
      (exec_path_of tools exec) q e ne h

update_from-keeps :
    (tools : Tools) (faults : Faults) (exec : Option FilePath) (files : Map File) (u : Updater)
    (x : Result (Option VersionCheckResult) × VersionChecker) (q : String) (e : Error)
    → ((path : FilePath) → exec_path_of tools exec ≡ ok path → temp_path path ≢ q)
    → (update_from tools faults exec files u x).error ≡ some e
    → (update_from tools faults exec files u x).files q ≡ files q
unfolding update_from
update_from-keeps tools faults exec files u (answer, vc) q e ne h =
    install-keeps tools faults exec files vc (fetch_binary tools vc u answer) q e ne h

-- If Update returns an error, whatever step has failed, every file but the temporary one next to the program is
-- what it was before, the program itself included: contents and mode.
pub update_failed_keeps_files :
    (tools : Tools) (faults : Faults) (exec : Option FilePath) (now : ℕ) (files : Map File)
    (u : Updater) (vc : VersionChecker) (q : String) (e : Error)
    → ((path : FilePath) → exec_path_of tools exec ≡ ok path → temp_path path ≢ q)
    → (update tools faults exec now files u vc).error ≡ some e
    → (update tools faults exec now files u vc).files q ≡ files q
unfolding update
update_failed_keeps_files tools faults exec now files u vc q e ne =
    let none_done = failed_at [] (other "cannot update dev build") files vc in
    let answer = latest_version tools.semver tools.http now vc in
    elim (str_eq vc.current_version "dev")
      as (λ dev.
        (if dev then none_done else update_from tools faults exec files u answer).error ≡ some e
        → (if dev then none_done else update_from tools faults exec files u answer).files q
          ≡ files q) [
            | true ↦ λ h. refl
            | false ↦ update_from-keeps tools faults exec files u answer q e ne
          ]
