-- ===== src/Config/Fields.antt =====
-- internal/ipc/handler/config/handler.go: what an update makes of each field, where nothing is shared.
use mole_port.Base.{Option, String, none, refl, some, ℕ, ◌≡◌}
use mole_port.Core.Settings.{
  Config, LogConfig, ReconnectConfig, ReconnectOverride, SessionConfig, ThemeConfig, TuiConfig,
  UpdateCheckConfig,
}
use mole_port.Config.Params.{
  ConfigUpdateParams, LogUpdateInfo, ReconnectUpdateInfo, SessionCfgUpdateInfo, ThemeUpdateInfo,
  TuiUpdateInfo, UpdateCheckUpdateInfo,
}
use mole_port.Config.Validation.{Durations, host_key}
use mole_port.Config.Applying.{
  apply_log, apply_override, apply_reconnect, apply_session, apply_theme, apply_tui,
  apply_update_check, apply_values, changed, changed_to,
}

-- The value that is given, or the one that was
abbrev pub given {ℓ} : {A : Type ℓ} → Option A → A → A
given o v = elim o [ none ↦ v | some w ↦ w ]

abbrev pub given_to {ℓ} : {A : Type ℓ} → Option A → Option A → Option A
given_to o v = elim o [ none ↦ v | some w ↦ some w ]

-- What a part of the update gives, if there is the part
abbrev pub part {ℓ κ} : {A : Type ℓ} → {B : Type κ} → Option A → (A → Option B) → Option B
part o f = elim o [ none ↦ none | some a ↦ f a ]

abbrev pub IsReconnect :
    Option ReconnectUpdateInfo → Durations → ReconnectConfig → ReconnectConfig → Type 0
IsReconnect u ds old c =
    (c.enabled ≡ given (part u (λ r. r.enabled)) old.enabled)
    × (c.max_retries ≡ given (part u (λ r. r.max_retries)) old.max_retries)
    × (c.initial_delay ≡ given (part u (λ r. ds "reconnect.initial_delay")) old.initial_delay)
    × (c.max_delay ≡ given (part u (λ r. ds "reconnect.max_delay")) old.max_delay)
    × (c.keep_alive_interval
        ≡ given (part u (λ r. ds "reconnect.keepalive_interval")) old.keep_alive_interval)

-- Each field of a configuration but for its hosts: that of the update, or that of the old configuration.
pub record IsReplaced (p : ConfigUpdateParams) (ds : Durations) (old cfg : Config) : Type 0 where
  pub ssh_config_path : cfg.ssh_config_path ≡ given p.ssh_config_path old.ssh_config_path
  pub reconnect : IsReconnect p.reconnect ds old.reconnect cfg.reconnect
  pub auto_restore :
      cfg.session.auto_restore
      ≡ given (part p.session (λ u. u.auto_restore)) old.session.auto_restore
  pub level : cfg.log.level ≡ given (part p.log (λ u. u.level)) old.log.level
  pub file : cfg.log.file ≡ given (part p.log (λ u. u.file)) old.log.file
  pub forwards : cfg.forwards ≡ old.forwards
  pub language : cfg.language ≡ given p.language old.language
  pub enabled :
      cfg.update_check.enabled
      ≡ given (part p.update_check (λ u. u.enabled)) old.update_check.enabled
  pub interval :
      cfg.update_check.interval
      ≡ given (part p.update_check (λ u. ds "update_check.interval")) old.update_check.interval
  pub base :
      cfg.tui.theme.base ≡ given (part (part p.tui (λ u. u.theme)) (λ t. t.base)) old.tui.theme.base
  pub accent :
      cfg.tui.theme.accent
      ≡ given (part (part p.tui (λ u. u.theme)) (λ t. t.accent)) old.tui.theme.accent

-- An override with the fields of the update, in which the durations have the keys of the host
abbrev pub expected_override :
    String → ReconnectUpdateInfo → Durations → ReconnectOverride → ReconnectOverride
expected_override name r ds o = record {
  enabled = given_to r.enabled o.enabled;
  max_retries = given_to r.max_retries o.max_retries;
  initial_delay = given_to (ds (host_key name "initial_delay")) o.initial_delay;
  max_delay = given_to (ds (host_key name "max_delay")) o.max_delay;
}

changed-given {ℓ} : {A : Type ℓ} (o : Option A) (v : A) → changed o v ≡ given o v
changed-given none v = refl
changed-given (some w) v = refl

changed_to-given_to {ℓ} : {A : Type ℓ} (o v : Option A) → changed_to o v ≡ given_to o v
changed_to-given_to none v = refl
changed_to-given_to (some w) v = refl

pub apply_override-expected :
    (name : String) (r : ReconnectUpdateInfo) (ds : Durations) (o : ReconnectOverride)
    → apply_override name r ds o ≡ expected_override name r ds o
unfolding apply_override
apply_override-expected name r ds o =
    rw
      (
        changed_to-given_to r.enabled o.enabled,
        changed_to-given_to r.max_retries o.max_retries,
        changed_to-given_to (ds (host_key name "initial_delay")) o.initial_delay,
        changed_to-given_to (ds (host_key name "max_delay")) o.max_delay,
      )
      refl

apply_reconnect-IsReconnect :
    (u : Option ReconnectUpdateInfo) (ds : Durations) (c : ReconnectConfig)
    → IsReconnect u ds c (apply_reconnect u ds c)
unfolding apply_reconnect
apply_reconnect-IsReconnect none ds c = (refl, refl, refl, refl, refl)
apply_reconnect-IsReconnect (some r) ds c = (
  changed-given r.enabled c.enabled,
  changed-given r.max_retries c.max_retries,
  changed-given (ds "reconnect.initial_delay") c.initial_delay,
  changed-given (ds "reconnect.max_delay") c.max_delay,
  changed-given (ds "reconnect.keepalive_interval") c.keep_alive_interval,
)

apply_session_lem :
    (u : Option SessionCfgUpdateInfo) (c : SessionConfig)
    → (apply_session u c).auto_restore ≡ given (part u (λ u. u.auto_restore)) c.auto_restore
unfolding apply_session
apply_session_lem none c = refl
apply_session_lem (some u) c = changed-given u.auto_restore c.auto_restore

apply_log_lem :
    (u : Option LogUpdateInfo) (c : LogConfig)
    → ((apply_log u c).level ≡ given (part u (λ u. u.level)) c.level)
      × ((apply_log u c).file ≡ given (part u (λ u. u.file)) c.file)
unfolding apply_log
apply_log_lem none c = (refl, refl)
apply_log_lem (some u) c = (changed-given u.level c.level, changed-given u.file c.file)

apply_update_check_lem :
    (u : Option UpdateCheckUpdateInfo) (ds : Durations) (c : UpdateCheckConfig)
    → ((apply_update_check u ds c).enabled ≡ given (part u (λ u. u.enabled)) c.enabled)
      × ((apply_update_check u ds c).interval
          ≡ given (part u (λ u. ds "update_check.interval")) c.interval)
unfolding apply_update_check
apply_update_check_lem none ds c = (refl, refl)
apply_update_check_lem (some u) ds c =
    (changed-given u.enabled c.enabled, changed-given (ds "update_check.interval") c.interval)

apply_theme_lem :
    (u : Option ThemeUpdateInfo) (c : ThemeConfig)
    → ((apply_theme u c).base ≡ given (part u (λ t. t.base)) c.base)
      × ((apply_theme u c).accent ≡ given (part u (λ t. t.accent)) c.accent)
unfolding apply_theme
apply_theme_lem none c = (refl, refl)
apply_theme_lem (some u) c = (changed-given u.base c.base, changed-given u.accent c.accent)

apply_tui_lem :
    (u : Option TuiUpdateInfo) (c : TuiConfig)
    → ((apply_tui u c).theme.base ≡ given (part (part u (λ u. u.theme)) (λ t. t.base)) c.theme.base)
      × ((apply_tui u c).theme.accent
          ≡ given (part (part u (λ u. u.theme)) (λ t. t.accent)) c.theme.accent)
unfolding apply_tui
apply_tui_lem none c = (refl, refl)
apply_tui_lem (some u) c = apply_theme_lem u.theme c.theme

-- The assignments to the fields of the configuration are those.
pub apply_values-IsReplaced :
    (p : ConfigUpdateParams) (ds : Durations) (cfg : Config)
    → IsReplaced p ds cfg (apply_values p ds cfg)
unfolding apply_values
apply_values-IsReplaced p ds cfg = record {
  ssh_config_path = changed-given p.ssh_config_path cfg.ssh_config_path;
  reconnect = apply_reconnect-IsReconnect p.reconnect ds cfg.reconnect;
  auto_restore = apply_session_lem p.session cfg.session;
  level = (apply_log_lem p.log cfg.log).0;
  file = (apply_log_lem p.log cfg.log).1;
  forwards = refl;
  language = changed-given p.language cfg.language;
  enabled = (apply_update_check_lem p.update_check ds cfg.update_check).0;
  interval = (apply_update_check_lem p.update_check ds cfg.update_check).1;
  base = (apply_tui_lem p.tui cfg.tui).0;
  accent = (apply_tui_lem p.tui cfg.tui).1;
}

-- The hosts of a configuration are no matter here.
pub IsReplaced-hosts :
    (p : ConfigUpdateParams) (ds : Durations) (old cfg : Config) (at : Option ℕ)
    → IsReplaced p ds old cfg
    → IsReplaced p ds old (record cfg { hosts = at })
IsReplaced-hosts p ds old cfg at r = record {
  ssh_config_path = r.ssh_config_path;
  reconnect = r.reconnect;
  auto_restore = r.auto_restore;
  level = r.level;
  file = r.file;
  forwards = r.forwards;
  language = r.language;
  enabled = r.enabled;
  interval = r.interval;
  base = r.base;
  accent = r.accent;
}
