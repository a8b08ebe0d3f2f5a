-- ===== src/Update/Verified.antt =====
-- internal/core/update/updater.go: which program Update installs.
use mole_port.Base.{
  List, Map, Option, String, [], arith, false, if◌then◌else◌, none, refl, some, some-none, str_eq,
  subst, true, ℕ, ◌≡◌, ◌≢◌,
}
use mole_port.Core.Errors.{Error, Result, err, ok, other, wrap}
use mole_port.Update.Texts.{runes, split_lines}
use mole_port.Update.Http.{as_error}
use mole_port.Update.Checker.{VersionCheckResult, VersionChecker}
use mole_port.Update.Downloads.{Updater, download_file, find_asset}
use mole_port.Update.Checksums.{ChecksumError, verify_checksum}
use mole_port.Update.Archives.{extract_binary}
use mole_port.Update.Updater.{
  Staged, Tools, asset_name, download_both, exec_path_of, failed_at, fetch_binary, staged_then,
  update, update_from, verified, verify_and_extract, version_to_install,
}
use mole_port.Update.Replacing.{Faults, File, FilePath, path_of, temp_path}
use mole_port.Update.Listings.{Lists, verify_lines-Lists}
use mole_port.Update.Placed.{IsInstalled, install-IsInstalled}
use mole_port.Update.Checker.{latest_version}

err_ok {ℓ} : {A : Type ℓ} (e : Error) (a : A) → err e ≡ ok a → ⊥
err_ok e a h = ground arith

staged_then-ok {ℓ κ} :
    {A : Type ℓ} {B : Type κ} (r : Result A) (later : A → Staged B) (b : B)
    → (staged_then r later).1 ≡ ok b
    → (a : A) × (r ≡ ok a) × ((later a).1 ≡ ok b)
staged_then-ok (err e) later b h = elim (err_ok e b h) [ ]
staged_then-ok (ok a) later b h = (a, refl, h)

as_error-ok {ℓ} : {A : Type ℓ} (s : String) (r : Result A) (a : A) → as_error s r ≡ ok a → r ≡ ok a
as_error-ok s (err e) a h = elim (err_ok (wrap s e) a h) [ ]
as_error-ok s (ok b) a h = h

verified-none :
    (tools : Tools) (o : Option ChecksumError) (u : Unit) → verified tools o ≡ ok u → o ≡ none
unfolding verified
verified-none tools none u h = refl
verified-none tools (some e) u h = ground arith

-- The list of checksums has the SHA-256 of the archive for the file of the platform, and the program is what
-- the archive holds.
unfoldable pub IsGenuine : Tools → List ℕ → List ℕ → List ℕ → Type 0
unfolding Lists
IsGenuine tools archive checksums binary =
    Lists (tools.sha archive) (runes (asset_name tools)) (split_lines (tools.decode checksums))
    × (extract_binary tools.gunzip archive "moleport" ≡ ok binary)

verify_and_extract-IsGenuine :
    (tools : Tools) (archive checksums binary : List ℕ)
    → (verify_and_extract tools archive checksums).1 ≡ ok binary
    → IsGenuine tools archive checksums binary
unfolding verify_and_extract IsGenuine verify_checksum
verify_and_extract-IsGenuine tools archive checksums binary h =
    let checksum =
      verify_checksum tools.sha tools.decode archive checksums (runes (asset_name tools)) in
    let (u, checked, extracted) = staged_then-ok (verified tools checksum) _ binary h in
    (
      verify_lines-Lists (tools.sha archive) (runes (asset_name tools))
          (split_lines (tools.decode checksums)) (verified-none tools checksum u checked),
      as_error-ok "extract binary" (extract_binary tools.gunzip archive "moleport") binary
          extracted,
    )

-- The program comes from the two files of the release that the checker has found to be newer.
unfoldable pub IsReleased : Tools → VersionChecker → Updater → VersionCheckResult → List ℕ → Type 0
IsReleased tools vc u r binary =
    (r.update_available ≡ true)
    × ((urls : String × String) × (archive checksums : List ℕ) × (find_asset tools.http vc u
            (asset_name tools) r.latest_version
          ≡ ok urls)
        × (download_file tools.http vc urls.0 ≡ ok archive)
        × (download_file tools.http vc urls.1 ≡ ok checksums)
        × IsGenuine tools archive checksums binary)

version_to_install-ok :
    (answer : Result (Option VersionCheckResult)) (v : String)
    → version_to_install answer ≡ ok v
    → (r : VersionCheckResult) × (answer ≡ ok (some r))
      × (r.update_available ≡ true)
      × (v ≡ r.latest_version)
unfolding version_to_install
version_to_install-ok (err e) v h = elim (err_ok (wrap "check latest version" e) v h) [ ]
version_to_install-ok (ok none) v h =
    elim (err_ok (other "already running the latest version") v h) [ ]
version_to_install-ok (ok (some r)) v h = (r, refl, ground arith, ground arith)

fetch_binary-IsReleased :
    (tools : Tools) (vc : VersionChecker) (u : Updater)
    (answer : Result (Option VersionCheckResult)) (binary : List ℕ)
    → (fetch_binary tools vc u answer).1 ≡ ok binary
    → (r : VersionCheckResult) × (answer ≡ ok (some r)) × IsReleased tools vc u r binary
unfolding fetch_binary download_both IsReleased
fetch_binary-IsReleased tools vc u answer binary h =
    let (version, chosen, h1) = staged_then-ok (version_to_install answer) _ binary h in
    let (r, known, newer, named) = version_to_install-ok answer version chosen in
    let (urls, found, h2) =
      staged_then-ok (as_error "find asset" (find_asset tools.http vc u (asset_name tools) version))
        _ binary h1 in
    let (archive, got, h3) =
      staged_then-ok (as_error "download asset" (download_file tools.http vc urls.0)) _ binary h2 in
    let (checksums, got2, h4) =
      staged_then-ok (as_error "download checksums" (download_file tools.http vc urls.1)) _ binary
        h3 in
    let found_named =
      subst (λ w. find_asset tools.http vc u (asset_name tools) w ≡ ok urls) named
        (as_error-ok "find asset" (find_asset tools.http vc u (asset_name tools) version) urls
          found) in
    (
      r,
      known,
      (
        newer,
        (
          urls,
          archive,
          checksums,
          found_named,
          as_error-ok "download asset" (download_file tools.http vc urls.0) archive got,
          as_error-ok "download checksums" (download_file tools.http vc urls.1) checksums got2,
          verify_and_extract-IsGenuine tools archive checksums binary h4,
        ),
      ),
    )

-- An update that has been made: the answer of LatestVersion is a newer version, and the program now installed
-- is that of its release.
unfoldable pub IsUpdated :
    Tools
    → Option FilePath
    → Updater
    → Result (Option VersionCheckResult) × VersionChecker
    → Map File
    → Type 0
IsUpdated tools exec u (answer, vc) files =
    (r : VersionCheckResult) × (binary : List ℕ) × (answer ≡ ok (some r))
    × IsReleased tools vc u r binary
    × IsInstalled tools exec binary files

update_from-IsUpdated :
    (tools : Tools) (faults : Faults) (exec : Option FilePath) (files : Map File) (u : Updater)
    (x : Result (Option VersionCheckResult) × VersionChecker)
    → ((path : FilePath) → exec_path_of tools exec ≡ ok path → temp_path path ≢ path_of path)
    → (update_from tools faults exec files u x).error ≡ none
    → IsUpdated tools exec u x (update_from tools faults exec files u x).files
unfolding update_from IsUpdated
update_from-IsUpdated tools faults exec files u (answer, vc) ne h =
    let (binary, given, installed) =
      install-IsInstalled tools faults exec files vc (fetch_binary tools vc u answer) ne h in
    let (r, known, released) = fetch_binary-IsReleased tools vc u answer binary given in
    (r, binary, known, released, installed)

-- If Update returns without an error, then the answer of LatestVersion was a version marked as newer; the file at the
-- path of the program holds what was extracted from the archive of that version's release; a line of the
-- release's list of checksums has the SHA-256 of the archive and the name of the archive's file; and there is no temporary file.
pub update-IsUpdated :
    (tools : Tools) (faults : Faults) (exec : Option FilePath) (now : ℕ) (files : Map File)
    (u : Updater) (vc : VersionChecker)
    → ((path : FilePath) → exec_path_of tools exec ≡ ok path → temp_path path ≢ path_of path)
    → (update tools faults exec now files u vc).error ≡ none
    → IsUpdated tools exec u
        (latest_version tools.semver tools.http now vc)
        (update tools faults exec now files u vc).files
unfolding update
update-IsUpdated tools faults exec now files u vc ne =
    let dev_build = other "cannot update dev build" in
    let none_done = failed_at [] dev_build files vc in
    let x = latest_version tools.semver tools.http now vc in
    elim (str_eq vc.current_version "dev")
      as (λ dev.
        (if dev then none_done else update_from tools faults exec files u x).error ≡ none
        → IsUpdated tools exec u x
            (if dev then none_done else update_from tools faults exec files u x).files) [
              | true ↦ λ h. elim (some-none dev_build h) [ ]
              | false ↦ update_from-IsUpdated tools faults exec files u x ne
            ]
