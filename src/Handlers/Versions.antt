-- ===== src/Handlers/Versions.antt =====
-- internal/ipc/handler/handler_version.go and handler_daemon.go. The daemon is `none` for the nil interface; a call
-- through nil is a panic, which is `none` as a result here.
use mole_port.Base.{Bool, Option, String, false, if◌then◌else◌, none, not, some, str_eq, ℕ, ◌||◌}
use mole_port.Core.Errors.{Error, Result, err, ok}
use mole_port.Core.Settings.{Config}
use mole_port.Protocol.Codes.{internal_error, to_rpc_error}
use mole_port.Config.Validation.{Checked, accepted, refused}
use mole_port.Handlers.Params.{Raw, missing, read, unreadable}
use mole_port.Update.Checker.{Semver, VersionCheckResult, VersionChecker}
use mole_port.Update.Http.{Http}
use mole_port.Update.Checker.{latest_version}

-- protocol.VersionCheckResult
pub record VersionAnswer : Type 0 where
  pub current_version : String
  pub latest_version : String
  pub update_available : Bool
  pub release_url : String
  pub checked_at : String

abbrev pub current_only : String → VersionAnswer
current_only version = record {
  current_version = version;
  latest_version = "";
  update_available = false;
  release_url = "";
  checked_at = "";
}

module _ (quote : String → String) (format : ℕ → String) where
  -- What LatestVersion returns
  unfoldable pub version_answer :
      String → Result (Option VersionCheckResult) → Checked VersionAnswer
  unfolding to_rpc_error
  version_answer version (err e) = refused (to_rpc_error quote e internal_error)
  version_answer version (ok none) = accepted (current_only version)
  version_answer version (ok (some r)) = accepted (record {
    current_version = version;
    latest_version = r.latest_version;
    update_available = r.update_available;
    release_url = r.release_url;
    checked_at = format r.checked_at;
  })

  abbrev pub from_checker :
      String
      → Result (Option VersionCheckResult) × VersionChecker
      → Checked VersionAnswer × Option VersionChecker
  unfolding version_answer
  from_checker version (answer, vc) = (version_answer version answer, some vc)

  unfoldable pub check_with :
      Semver
      → Http
      → ℕ
      → String
      → Option VersionChecker
      → Checked VersionAnswer × Option VersionChecker
  unfolding latest_version version_answer
  check_with semver http now version none = (accepted (current_only version), none)
  check_with semver http now version (some vc) =
      from_checker version (latest_version semver http now vc)

  -- versionCheck: the daemon is known by its version
  unfoldable pub version_check :
      Semver
      → Http
      → ℕ
      → Option String
      → Config
      → Option VersionChecker
      → Option (Checked VersionAnswer × Option VersionChecker)
  unfolding check_with
  version_check semver http now none cfg checker = none
  version_check semver http now (some version) cfg checker = some (
      if str_eq version "dev" || not cfg.update_check.enabled
      then (accepted (current_only version), checker)
      else check_with semver http now version checker)

-- daemonStatus
unfoldable pub daemon_status {ℓ} : {A : Type ℓ} → Option A → Checked A
daemon_status none = refused (record { code = internal_error; message = "daemon not available" })
daemon_status (some status) = accepted status

-- The parameter `purge`: parameters that do not decode count as none.
abbrev pub purge_of : Raw Bool → Bool
purge_of (read purge) = purge
purge_of missing = false
purge_of (unreadable text) = false

module _ (quote : String → String) where
  -- What Shutdown returns
  abbrev pub shut_down : Option Error → Checked (Unit {0})
  unfolding to_rpc_error
  shut_down (some e) = refused (to_rpc_error quote e internal_error)
  shut_down none = accepted tt

  -- daemonShutdown, the daemon known by its method
  unfoldable pub daemon_shutdown : Option (Bool → Option Error) → Raw Bool → Checked (Unit {0})
  unfolding to_rpc_error
  daemon_shutdown none raw =
      refused (record { code = internal_error; message = "daemon not available" })
  daemon_shutdown (some shutdown) raw = shut_down (shutdown (purge_of raw))
