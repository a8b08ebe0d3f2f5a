-- ===== src/Update/Downloads.antt =====
-- internal/core/update/updater.go: FindAsset, fetchRelease and downloadFile.
use mole_port.Base.{List, String, [], if◌then◌else◌, length, ltb, str_eq, ℕ, ◌+◌, ◌<>◌, ◌∷◌}
use mole_port.Core.Errors.{Result, err, ok, other}
use mole_port.Update.Http.{
  Body, GithubRelease, GithubReleaseAsset, Http, as_error, fetch, fetch_decoded, limit_reader,
  read_all,
}
use mole_port.Update.Checker.{VersionChecker, ensure_v_prefix}
use mole_port.Core.Errors.{◌>>=◌}

-- maxDownloadSize
abbrev pub max_download_size : ℕ
max_download_size = 268435456

-- io.ReadAll of a reader with a limit of one byte more than is allowed, and the test of the size
unfoldable pub read_sized : String → String → Body → Result (List ℕ)
unfolding limit_reader read_all
read_sized failed too_large body =
    as_error failed (read_all (limit_reader body (max_download_size + 1))) >>= λ bytes.
    if ltb max_download_size (length bytes)
    then err (other (too_large <> " (268435456 bytes)"))
    else ok bytes

-- Updater: what it takes from the checker is read there.
pub record Updater : Type 0 where
  pub repo_owner : String
  pub repo_name : String
  pub api_base : String

-- NewUpdater
unfoldable pub new_updater : VersionChecker → Updater
new_updater vc = record {
  repo_owner = vc.repo_owner;
  repo_name = vc.repo_name;
  api_base = vc.api_base;
}

-- fetchRelease
unfoldable pub fetch_release : Http → VersionChecker → Updater → String → Result GithubRelease
unfolding fetch_decoded
fetch_release http vc u tag =
    fetch_decoded http
      (record {
        url =
            u.api_base <> "/repos/" <> u.repo_owner <> "/" <> u.repo_name <> "/releases/tags/"
            <> tag;
        user_agent = "MolePort/" <> vc.current_version;
        accept = "application/vnd.github.v3+json";
      })
      "fetch release"

-- The loop of FindAsset, from what is found so far
unfoldable pub find_urls : String → List GithubReleaseAsset → String × String → String × String
find_urls expected [] found = found
find_urls expected (asset ∷ assets) (asset_url, checksum_url) =
    let url = asset.browser_download_url in
    find_urls expected assets (
      if str_eq asset.name expected
      then (url, checksum_url)
      else if str_eq asset.name "checksums.txt"
      then (asset_url, url)
      else (asset_url, checksum_url))

-- The two tests behind the loop
unfoldable pub both_urls : String → String → String × String → Result (String × String)
both_urls expected tag (asset_url, checksum_url) =
    if str_eq asset_url ""
    then err (other ("asset " <> expected <> " not found in release " <> tag))
    else if str_eq checksum_url ""
    then err (other ("checksums.txt not found in release " <> tag))
    else ok (asset_url, checksum_url)

-- FindAsset
unfoldable pub find_asset :
    Http → VersionChecker → Updater → String → String → Result (String × String)
unfolding fetch_release find_urls both_urls ensure_v_prefix
find_asset http vc u expected version =
    let tag = ensure_v_prefix version in
    fetch_release http vc u tag >>= λ release.
    both_urls expected tag (find_urls expected release.assets ("", ""))

-- downloadFile
unfoldable pub download_file : Http → VersionChecker → String → Result (List ℕ)
unfolding fetch read_sized
download_file http vc url =
    fetch http (record { url = url; user_agent = "MolePort/" <> vc.current_version; accept = "" })
      "download file" "download returned status "
    >>= λ body. read_sized "read response body" "download exceeds maximum size" body
