-- ===== src/Update/Checker.antt =====
-- internal/core/update/checker.go: VersionChecker. Go's package `semver` is a parameter; a context is
-- known by its number.
use mole_port.Base.{
  Bool, List, Option, String, [], false, if◌then◌else◌, ltb_ℤ, none, not, pos, select, some, str_eq,
  suc, zero, ℕ, ℤ, ◌+◌, ◌<>◌, ◌==◌, ◌||◌, ◌∷◌,
}
use mole_port.Core.Errors.{Error, Result, err, ok}
use mole_port.Update.Http.{GithubRelease, Http, fetch_decoded}
use text.Mathlib.Text.{starts_with}

pub record Semver : Type 0 where
  pub is_valid : String → Bool
  pub compare : String → String → ℤ

-- core.VersionCheckResult
pub record VersionCheckResult : Type 0 where
  pub latest_version : String
  pub release_url : String
  pub checked_at : ℕ
  pub update_available : Bool

-- `context` is `ctx`, none before the first Start, and `launching` counts the calls of Start between their
-- locked section and their `go` statement. `loops` holds the contexts of the goroutines in `loop` that
-- have not seen an end.
pub record VersionChecker : Type 0 where
  pub current_version : String
  pub repo_owner : String
  pub repo_name : String
  pub api_base : String
  pub interval : ℤ
  pub enabled : Bool
  pub cache : Option VersionCheckResult
  pub context : Option ℕ
  pub cancel : Option ℕ
  pub next_context : ℕ
  pub launching : ℕ
  pub loops : List ℕ

-- New
unfoldable pub new_version_checker : String → Bool → ℤ → VersionChecker
new_version_checker version enabled interval = record {
  current_version = version;
  repo_owner = "ousiassllc";
  repo_name = "moleport";
  api_base = "https://api.github.com";
  interval = interval;
  enabled = enabled;
  cache = none;
  context = none;
  cancel = none;
  next_context = 0;
  launching = 0;
  loops = [];
}

-- SetAPIBase
unfoldable pub set_api_base : String → VersionChecker → VersionChecker
set_api_base base vc = record vc { api_base = base }

-- The test that Start and LatestVersion begin with
abbrev pub is_off : VersionChecker → Bool
is_off vc = not vc.enabled || str_eq vc.current_version "dev"

-- The locked section of Start behind its first test
unfoldable pub start_loop : Option ℕ → VersionChecker → VersionChecker
start_loop (some c) vc = vc
start_loop none vc = record vc {
  context = some vc.next_context;
  cancel = some vc.next_context;
  next_context = vc.next_context + 1;
  launching = vc.launching + 1;
}

-- Start up to the end of its locked section
unfoldable pub reserve_start : VersionChecker → VersionChecker
unfolding start_loop
reserve_start vc = if is_off vc then vc else start_loop vc.cancel vc

-- A context that Stop has not ended
abbrev pub is_live : ℕ → Option ℕ → Bool
is_live c none = false
is_live c (some d) = c == d

-- `loop` begins; on a context that was ended it returns at once.
unfoldable pub launched : Option ℕ → VersionChecker → VersionChecker
launched none vc = vc
launched (some c) vc = if is_live c vc.cancel then record vc { loops = c ∷ vc.loops } else vc

-- `go vc.loop(vc.ctx, initialDelay)`, which reads `ctx` when the lock is free again
unfoldable pub launch : ℕ → VersionChecker → VersionChecker
unfolding launched
launch zero vc = vc
launch (suc n) vc = launched vc.context (record vc { launching = n })

-- Start with nothing in between
unfoldable pub start : VersionChecker → VersionChecker
unfolding reserve_start launch
start vc = let vc' = reserve_start vc in launch vc'.launching vc'

-- `vc.cancel(); vc.cancel = nil`, with the end of the loops of that context
unfoldable pub cancel_loop : Option ℕ → VersionChecker → VersionChecker
cancel_loop none vc = vc
cancel_loop (some c) vc = record vc { cancel = none; loops = select (λ d. not (d == c)) vc.loops }

-- Stop
unfoldable pub stop : VersionChecker → VersionChecker
unfolding cancel_loop
stop vc = cancel_loop vc.cancel vc

-- UpdateAvailable
unfoldable pub update_available : VersionChecker → Bool
update_available vc = elim vc.cache [ none ↦ false | some r ↦ r.update_available ]

-- ensureVPrefix
unfoldable pub ensure_v_prefix : String → String
ensure_v_prefix version = if not (starts_with version "v") then "v" <> version else version

-- isNewerVersion
unfoldable pub is_newer_version : Semver → String → String → Bool
unfolding ensure_v_prefix
is_newer_version semver current latest =
    let c = ensure_v_prefix current in
    let l = ensure_v_prefix latest in
    if not (semver.is_valid c) || not (semver.is_valid l)
    then false
    else ltb_ℤ (pos 0) (semver.compare l c)

-- fetchLatest
unfoldable pub fetch_latest : Http → VersionChecker → Result GithubRelease
unfolding fetch_decoded
fetch_latest http vc =
    fetch_decoded http
      (record {
        url =
            vc.api_base <> "/repos/" <> vc.repo_owner <> "/" <> vc.repo_name <> "/releases/latest";
        user_agent = "MolePort/" <> vc.current_version;
        accept = "application/vnd.github.v3+json";
      })
      "fetch latest release"

-- What `check` does with the answer
unfoldable pub keep_release :
    Semver → ℕ → VersionChecker → Result GithubRelease → Option Error × VersionChecker
keep_release semver now vc (err e) = (some e, vc)
keep_release semver now vc (ok release) = (
  none,
  record vc {
    cache = some (record {
      latest_version = release.tag_name;
      release_url = release.html_url;
      checked_at = now;
      update_available = is_newer_version semver vc.current_version release.tag_name;
    });
  },
)

-- check
unfoldable pub check_release : Semver → Http → ℕ → VersionChecker → Option Error × VersionChecker
unfolding fetch_latest keep_release
check_release semver http now vc = keep_release semver now vc (fetch_latest http vc)

-- The end of LatestVersion, after its call of `check`
unfoldable pub checked_version :
    Option Error × VersionChecker → Result (Option VersionCheckResult) × VersionChecker
checked_version (some e, vc) = (err e, vc)
checked_version (none, vc) = (ok vc.cache, vc)

-- LatestVersion behind its first test; a copy of the cached result
unfoldable pub cached_or_checked :
    Semver
    → Http
    → ℕ
    → VersionChecker
    → Option VersionCheckResult
    → Result (Option VersionCheckResult) × VersionChecker
unfolding checked_version check_release
cached_or_checked semver http now vc (some r) = (ok (some r), vc)
cached_or_checked semver http now vc none = checked_version (check_release semver http now vc)

-- LatestVersion
unfoldable pub latest_version :
    Semver → Http → ℕ → VersionChecker → Result (Option VersionCheckResult) × VersionChecker
unfolding cached_or_checked
latest_version semver http now vc =
    if is_off vc then (ok none, vc) else cached_or_checked semver http now vc vc.cache

-- One turn of `loop`, by the goroutine whose timer fires: a check, whose error goes to the log.
unfoldable pub loop_turn : Semver → Http → ℕ → List ℕ → VersionChecker → VersionChecker
unfolding check_release
loop_turn semver http now [] vc = vc
loop_turn semver http now (c ∷ loops) vc = (check_release semver http now vc).1
