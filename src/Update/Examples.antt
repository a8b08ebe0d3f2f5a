-- ===== src/Update/Examples.antt =====
-- Runs of the model of internal/core/update.
use mole_port.Base.{
  All, Bool, List, Map, String, [], ap, arith, false, if◌then◌else◌, ltb_ℤ, no_entries, none, not,
  pos, put, refl, some, str_eq, subst, sym, true, ℕ, ℤ, ◌&&◌, ◌∷◌, ◌≡◌, ◌≢◌,
}
use mole_port.Core.Errors.{Result, err, ok, other, wrap}
use mole_port.Update.Texts.{is_space, runes}
use mole_port.Update.Http.{GithubRelease, Http, Request, Response}
use mole_port.Update.Checker.{Semver, VersionChecker, is_newer_version, new_version_checker}
use mole_port.Update.Archives.{entry, eof}
use mole_port.Update.Downloads.{Updater, new_updater}
use mole_port.Update.Replacing.{Faults, File, FilePath, path_of, temp_path}
use mole_port.Update.Updater.{Tools, exec_path_of, update}
use mole_port.Update.Checklists.{decide, print_list, verify_checksum-decide}
use mole_port.Update.Checksums.{verify_checksum}
use mole_port.Update.Installs.{update_failed_keeps_files}
use mole_port.Update.Verified.{IsUpdated, update-IsUpdated}
use mole_port.Update.Versions.{
  IsSound, launches, run_checker, run_checker-IsSound, starts, stops, turns,
}
use mole_port.Update.Checker.{latest_version}

abbrev linux_name : List ℕ
linux_name = runes "moleport_linux_amd64.tar.gz"

abbrev checksum_entries : List (List ℕ × List ℕ)
checksum_entries =
    (runes "9f", runes "moleport_darwin_arm64.tar.gz") ∷ (runes "07a", linux_name) ∷ []

abbrev second_release : GithubRelease
second_release = record {
  tag_name = "v2";
  html_url = "u";
  assets =
      (record { name = "moleport_linux_amd64.tar.gz"; browser_download_url = "a" })
      ∷ (record { name = "checksums.txt"; browser_download_url = "c" })
      ∷ [];
}

-- GitHub, which serves the two files of one release
abbrev answer : Request → Result Response
answer r =
    if str_eq r.url "a"
    then ok (record { status_code = 200; body = (7 ∷ [], none) })
    else if str_eq r.url "c"
    then ok (record { status_code = 200; body = (print_list checksum_entries, none) })
    else ok (record { status_code = 200; body = ([], none) })

abbrev github : Http
github = record {
  new_request = λ url. none;
  do_request = answer;
  decode = λ body. ok second_release;
}

abbrev program : FilePath
program = record { dir = "/usr/bin"; base = "moleport" }

-- Version 2 is the only one above another.
abbrev two_above : String → String → ℤ
two_above v w = if str_eq v "v2" && not (str_eq w "v2") then pos 1 else pos 0

abbrev semver : Semver
semver = record { is_valid = λ v. true; compare = two_above }

abbrev tools : Tools
tools = record {
  http = github;
  semver = semver;
  sha = λ bytes. runes "07a";
  decode = λ bytes. bytes;
  gunzip = λ bytes.
      ok (entry (record { name = runes "bin/moleport"; type_flag = 48 }) (42 ∷ [], none) eof);
  print_checksum_error = λ e. other "checksum";
  platform = "linux_amd64";
  executable = ok program;
  masked = λ mode. mode;
}

abbrev files : Map File
files = put no_entries "/usr/bin/moleport" (record { content = 1 ∷ []; mode = 493 })

abbrev no_faults : Faults
no_faults = record { stat = none; write = none; rename = none; remove = none }

-- The rename fails.
abbrev busy : Faults
busy = record { stat = none; write = none; rename = some (other "busy"); remove = none }

abbrev checker : VersionChecker
unfolding new_version_checker
checker = new_version_checker "v1" true (pos 1)

abbrev updater : Updater
unfolding new_updater
updater = new_updater checker

updated_files :
    (update tools no_faults (some program) 5 files updater checker).files "/usr/bin/moleport"
    ≡ some (record { content = 42 ∷ []; mode = 493 })
unfolding update checker is_newer_version updater
updated_files = refl

updated_error : (update tools no_faults (some program) 5 files updater checker).error ≡ none
unfolding update checker is_newer_version updater
updated_error = refl

refused_error :
    (update tools busy (some program) 5 files updater checker).error
    ≡ some (wrap "replace binary" (wrap "rename temp file" (other "busy")))
unfolding update checker is_newer_version updater
refused_error = refl

found_path : Result FilePath → FilePath
found_path (err e) = program
found_path (ok p) = p

program_is : (path : FilePath) → exec_path_of tools (some program) ≡ ok path → program ≡ path
unfolding exec_path_of found_path
program_is path e = ap found_path e

true_is_false : false ≡ true → ⊥
true_is_false e = ground arith

temp_is_apart : temp_path program ≢ path_of program
temp_is_apart e =
    elim (true_is_false (sym (ap (λ s. str_eq s "/usr/bin/.moleport.update.tmp") e))) [ ]

update-IsUpdated_example :
    IsUpdated tools
      (some program)
      updater
      (latest_version tools.semver tools.http 5 checker)
      (update tools no_faults (some program) 5 files updater checker).files
update-IsUpdated_example =
    update-IsUpdated tools no_faults (some program) 5 files updater checker
      (λ path e. subst (λ p. temp_path p ≢ path_of p) (program_is path e) temp_is_apart)
      updated_error

-- The program itself, when the rename fails
update_failed_keeps_files_example :
    (update tools busy (some program) 5 files updater checker).files "/usr/bin/moleport"
    ≡ files "/usr/bin/moleport"
update_failed_keeps_files_example =
    update_failed_keeps_files tools busy (some program) 5 files updater checker "/usr/bin/moleport"
      (wrap "replace binary" (wrap "rename temp file" (other "busy")))
      (λ path e. subst (λ p. temp_path p ≢ "/usr/bin/moleport") (program_is path e) temp_is_apart)
      refused_error

abbrev plain : List ℕ → Bool
plain [] = true
plain (c ∷ s) = let rest = plain s in not (is_space c) && rest

plain-All : (s : List ℕ) → plain s ≡ true → All (λ c. is_space c ≡ false) s
plain-All [] h = tt
plain-All (c ∷ s) h = (ground arith, plain-All s (ground arith))

verify_checksum-decide_example :
    verify_checksum
      (λ bytes. runes "07a")
      (λ bytes. bytes)
      (7 ∷ [])
      (print_list checksum_entries)
      linux_name
    ≡ decide (runes "07a") linux_name checksum_entries
unfolding is_space
verify_checksum-decide_example =
    verify_checksum-decide (λ bytes. runes "07a") (λ bytes. bytes) (7 ∷ [])
      (print_list checksum_entries) linux_name checksum_entries
      (
        (plain-All (runes "9f") refl),
        (plain-All (runes "moleport_darwin_arm64.tar.gz") refl),
        ((plain-All (runes "07a") refl), (plain-All linux_name refl), tt),
      )
      refl

two_above_order :
    (v w : String) → ltb_ℤ (pos 0) (two_above v w) ≡ true → ltb_ℤ (pos 0) (two_above w v) ≡ false
two_above_order v w = ground arith

-- A start with its loop, a second one, a turn and a stop
run_checker-IsSound_example : IsSound semver (
    run_checker semver
      (starts ∷ launches ∷ starts ∷ turns github 3 ∷ stops ∷ [])
      (new_version_checker "v1" true (pos 1)))
run_checker-IsSound_example =
    run_checker-IsSound semver (starts ∷ launches ∷ starts ∷ turns github 3 ∷ stops ∷ []) "v1" true
      (pos 1)
