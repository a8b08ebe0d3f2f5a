-- ===== src/Update/Updater.antt =====
-- internal/core/update/updater.go: Update. Each step that may fail comes with the stages that it reports.
use mole_port.Base.{
  List, Map, Option, String, [], if◌then◌else◌, none, some, str_eq, ℕ, ◌++◌, ◌<>◌, ◌∷◌,
}
use mole_port.Core.Errors.{Error, Result, err, ok, other, wrap}
use mole_port.Update.Texts.{runes}
use mole_port.Update.Http.{Http, as_error}
use mole_port.Update.Checker.{Semver, VersionCheckResult, VersionChecker}
use mole_port.Update.Downloads.{Updater, download_file, find_asset}
use mole_port.Update.Checksums.{ChecksumError, verify_checksum}
use mole_port.Update.Archives.{Archive, extract_binary}
use mole_port.Update.Replacing.{Faults, File, FilePath, replace_binary}
use mole_port.Update.Checker.{latest_version}

-- The libraries that Update reads with, and the machine that the program runs on: `platform` is
-- "<GOOS>_<GOARCH>", `executable` what os.Executable answers.
pub record Tools : Type 0 where
  pub http : Http
  pub semver : Semver
  pub sha : List ℕ → List ℕ
  pub decode : List ℕ → List ℕ
  pub gunzip : List ℕ → Result Archive
  pub print_checksum_error : ChecksumError → Error
  pub platform : String
  pub executable : Result FilePath
  pub masked : ℕ → ℕ

-- assetFilename
abbrev pub asset_name : Tools → String
asset_name tools = "moleport_" <> tools.platform <> ".tar.gz"

-- A result with the stages that `progress` was called with before it
abbrev pub Staged {ℓ} : Type ℓ → Type ℓ
Staged A = List String × Result A

abbrev pub in_stage {ℓ} : {A : Type ℓ} → String → Staged A → Staged A
in_stage s x = (s ∷ x.0, x.1)

abbrev pub staged_then {ℓ κ} : {A : Type ℓ} {B : Type κ} → Result A → (A → Staged B) → Staged B
staged_then (err e) later = ([], err e)
staged_then (ok a) later = later a

-- The answer of LatestVersion: the version to install
unfoldable pub version_to_install : Result (Option VersionCheckResult) → Result String
version_to_install (err e) = err (wrap "check latest version" e)
version_to_install (ok none) = err (other "already running the latest version")
version_to_install (ok (some r)) =
    if r.update_available
    then ok r.latest_version
    else err (other "already running the latest version")

-- The check of the checksum
unfoldable pub verified : Tools → Option ChecksumError → Result (Unit {0})
verified tools none = ok tt
verified tools (some e) = err (wrap "verify checksum" (tools.print_checksum_error e))

-- Steps 6 and 7
unfoldable pub verify_and_extract : Tools → List ℕ → List ℕ → Staged (List ℕ)
unfolding verified verify_checksum extract_binary
verify_and_extract tools archive checksums = in_stage "verifying" (
    staged_then
      (verified tools
        (verify_checksum tools.sha tools.decode archive checksums (runes (asset_name tools))))
      (λ checked.
        in_stage "extracting"
          ([], as_error "extract binary" (extract_binary tools.gunzip archive "moleport"))))

-- Steps 4 and 5
unfoldable pub download_both : Tools → VersionChecker → String × String → Staged (List ℕ)
unfolding download_file verify_and_extract
download_both tools vc urls = in_stage "downloading" (
    staged_then (as_error "download asset" (download_file tools.http vc urls.0)) (λ archive.
      staged_then (as_error "download checksums" (download_file tools.http vc urls.1))
        (λ checksums. verify_and_extract tools archive checksums)))

-- Steps 2 to 7, from the answer of LatestVersion
unfoldable pub fetch_binary :
    Tools → VersionChecker → Updater → Result (Option VersionCheckResult) → Staged (List ℕ)
unfolding version_to_install find_asset download_both
fetch_binary tools vc u answer = in_stage "checking" (
    staged_then (version_to_install answer) (λ version.
      staged_then (as_error "find asset" (find_asset tools.http vc u (asset_name tools) version))
        (λ urls. download_both tools vc urls)))

-- What Update leaves: its stages, its error, the files and the checker
pub record Updated : Type 0 where
  pub stages : List String
  pub error : Option Error
  pub files : Map File
  pub checker : VersionChecker

-- The field execPath, or os.Executable where it is empty
unfoldable pub exec_path_of : Tools → Option FilePath → Result FilePath
exec_path_of tools (some path) = ok path
exec_path_of tools none = as_error "get executable path" tools.executable

abbrev pub replaced : List String → VersionChecker → Option Error × Map File → Updated
replaced stages vc (none, files) = record {
  stages = stages;
  error = none;
  files = files;
  checker = vc;
}
replaced stages vc (some e, files) = record {
  stages = stages;
  error = some (wrap "replace binary" e);
  files = files;
  checker = vc;
}

abbrev pub failed_at : List String → Error → Map File → VersionChecker → Updated
failed_at stages e files vc = record {
  stages = stages;
  error = some e;
  files = files;
  checker = vc;
}

-- From the path of the program on
unfoldable pub install_at :
    Tools → Faults → Map File → VersionChecker → List String → List ℕ → Result FilePath → Updated
unfolding replace_binary
install_at tools faults files vc stages binary (err e) = failed_at stages e files vc
install_at tools faults files vc stages binary (ok path) =
    replaced stages vc (replace_binary tools.masked faults path binary files)

-- Steps 8 to 10, for a binary that steps 1 to 7 have given
unfoldable pub install :
    Tools → Faults → Option FilePath → Map File → VersionChecker → Staged (List ℕ) → Updated
unfolding exec_path_of install_at
install tools faults exec files vc (stages, err e) = failed_at stages e files vc
install tools faults exec files vc (stages, ok binary) =
    install_at tools faults files vc (stages ++ ("replacing" ∷ [])) binary (exec_path_of tools exec)

-- Update from the answer of LatestVersion on
unfoldable pub update_from :
    Tools
    → Faults
    → Option FilePath
    → Map File
    → Updater
    → Result (Option VersionCheckResult) × VersionChecker
    → Updated
unfolding install fetch_binary
update_from tools faults exec files u (answer, vc) =
    install tools faults exec files vc (fetch_binary tools vc u answer)

-- Update, at the time `now`
unfoldable pub update :
    Tools → Faults → Option FilePath → ℕ → Map File → Updater → VersionChecker → Updated
unfolding update_from latest_version
update tools faults exec now files u vc =
    if str_eq vc.current_version "dev"
    then failed_at [] (other "cannot update dev build") files vc
    else update_from tools faults exec files u (latest_version tools.semver tools.http now vc)
