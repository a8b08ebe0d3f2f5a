-- ===== src/Config/Applying.antt =====
-- internal/ipc/handler/config/handler.go: the function that Update gives to UpdateConfig.
use mole_port.Base.{
  List, Map, Option, String, [], if◌then◌else◌, no_entries, none, some, ℕ, ◌+◌, ◌==◌, ◌∷◌,
}
use mole_port.Core.Settings.{
  Config, HostConfig, LogConfig, ReconnectConfig, ReconnectOverride, SessionConfig, ThemeConfig,
  TuiConfig, UpdateCheckConfig, no_override,
}
use mole_port.Config.Memory.{Memory, delete_host, put_host, put_override}
use mole_port.Config.Params.{
  ConfigUpdateParams, HostConfigUpdateInfo, LogUpdateInfo, ReconnectUpdateInfo,
  SessionCfgUpdateInfo, ThemeUpdateInfo, TuiUpdateInfo, UpdateCheckUpdateInfo,
}
use mole_port.Config.Validation.{Durations, host_key}

-- `if p.Field != nil { cfg.Field = *p.Field }`
abbrev pub changed {ℓ} : {A : Type ℓ} → Option A → A → A
changed none v = v
changed (some w) v = w

-- The same for a field that is a pointer itself, or a duration that was parsed
abbrev pub changed_to {ℓ} : {A : Type ℓ} → Option A → Option A → Option A
changed_to none v = v
changed_to (some w) v = some w

-- applyReconnect
unfoldable pub apply_reconnect :
    Option ReconnectUpdateInfo → Durations → ReconnectConfig → ReconnectConfig
apply_reconnect none ds c = c
apply_reconnect (some r) ds c = record {
  enabled = changed r.enabled c.enabled;
  max_retries = changed r.max_retries c.max_retries;
  initial_delay = changed (ds "reconnect.initial_delay") c.initial_delay;
  max_delay = changed (ds "reconnect.max_delay") c.max_delay;
  keep_alive_interval = changed (ds "reconnect.keepalive_interval") c.keep_alive_interval;
}

-- The assignments to the fields of an override
unfoldable pub apply_override :
    String → ReconnectUpdateInfo → Durations → ReconnectOverride → ReconnectOverride
apply_override name r ds o = record {
  enabled = changed_to r.enabled o.enabled;
  max_retries = changed_to r.max_retries o.max_retries;
  initial_delay = changed_to (ds (host_key name "initial_delay")) o.initial_delay;
  max_delay = changed_to (ds (host_key name "max_delay")) o.max_delay;
}

-- `if hc.Reconnect == nil { hc.Reconnect = &core.ReconnectOverride{} }`
unfoldable pub ensure_override : Option ℕ → Memory → ℕ × Memory
ensure_override (some q) mem = (q, mem)
ensure_override none mem = (
  mem.next_override,
  record mem {
    override_at = λ q. if mem.next_override == q then no_override else mem.override_at q;
    next_override = mem.next_override + 1;
  },
)

-- `cfg.Hosts[name]`, the zero value where there is no entry
abbrev pub host_config : Option HostConfig → HostConfig
host_config none = record { reconnect = none }
host_config (some hc) = hc

unfoldable pub update_override : ℕ → String → ReconnectUpdateInfo → Durations → ℕ × Memory → Memory
unfolding apply_override
update_override p name r ds (q, mem) =
    put_host p name (record { reconnect = some q })
      (put_override q (apply_override name r ds (mem.override_at q)) mem)

-- The body of the loop of applyHosts, on the map at p
unfoldable pub apply_host :
    ℕ → String → Option (Option HostConfigUpdateInfo) → Durations → Memory → Memory
unfolding ensure_override update_override
apply_host p name none ds mem = mem
apply_host p name (some none) ds mem = delete_host p name mem
apply_host p name (some (some u)) ds mem =
    let hc = host_config (mem.map_at p name) in
    elim u.reconnect [
      | none ↦ put_host p name hc mem
      | some r ↦ update_override p name r ds (ensure_override hc.reconnect mem)
    ]

unfoldable pub apply_each :
    ℕ → Map (Option HostConfigUpdateInfo) → List String → Durations → Memory → Memory
unfolding apply_host
apply_each p hosts [] ds mem = mem
apply_each p hosts (name ∷ names) ds mem =
    apply_each p hosts names ds (apply_host p name (hosts name) ds mem)

-- `if cfg.Hosts == nil { cfg.Hosts = make(...) }`
unfoldable pub ensure_hosts : Option ℕ → Memory → ℕ × Memory
ensure_hosts (some p) mem = (p, mem)
ensure_hosts none mem = (
  mem.next_map,
  record mem {
    map_at = λ q. if mem.next_map == q then no_entries else mem.map_at q;
    next_map = mem.next_map + 1;
  },
)

-- applyHosts: the new value of cfg.Hosts, and the memory
unfoldable pub apply_hosts :
    Option (Map (Option HostConfigUpdateInfo))
    → List String
    → Durations
    → Option ℕ
    → Memory
    → Option ℕ × Memory
unfolding ensure_hosts apply_each
apply_hosts none names ds at mem = (at, mem)
apply_hosts (some hosts) names ds at mem =
    let (p, mem1) = ensure_hosts at mem in (some p, apply_each p hosts names ds mem1)

unfoldable pub apply_session : Option SessionCfgUpdateInfo → SessionConfig → SessionConfig
apply_session none c = c
apply_session (some u) c = record { auto_restore = changed u.auto_restore c.auto_restore }

unfoldable pub apply_log : Option LogUpdateInfo → LogConfig → LogConfig
apply_log none c = c
apply_log (some u) c = record { level = changed u.level c.level; file = changed u.file c.file }

unfoldable pub apply_update_check :
    Option UpdateCheckUpdateInfo → Durations → UpdateCheckConfig → UpdateCheckConfig
apply_update_check none ds c = c
apply_update_check (some u) ds c = record {
  enabled = changed u.enabled c.enabled;
  interval = changed (ds "update_check.interval") c.interval;
}

unfoldable pub apply_theme : Option ThemeUpdateInfo → ThemeConfig → ThemeConfig
apply_theme none c = c
apply_theme (some u) c = record { base = changed u.base c.base; accent = changed u.accent c.accent }

unfoldable pub apply_tui : Option TuiUpdateInfo → TuiConfig → TuiConfig
unfolding apply_theme
apply_tui none c = c
apply_tui (some u) c = record { theme = apply_theme u.theme c.theme }

-- The configuration but for its hosts
unfoldable pub apply_values : ConfigUpdateParams → Durations → Config → Config
unfolding apply_reconnect apply_session apply_log apply_update_check apply_tui
apply_values p ds cfg = record cfg {
  ssh_config_path = changed p.ssh_config_path cfg.ssh_config_path;
  reconnect = apply_reconnect p.reconnect ds cfg.reconnect;
  session = apply_session p.session cfg.session;
  log = apply_log p.log cfg.log;
  language = changed p.language cfg.language;
  update_check = apply_update_check p.update_check ds cfg.update_check;
  tui = apply_tui p.tui cfg.tui;
}

-- The function that Update passes
unfoldable pub apply_params :
    ConfigUpdateParams → List String → Durations → Config → Memory → Config × Memory
unfolding apply_values apply_hosts
apply_params p names ds cfg mem =
    let (at, mem') = apply_hosts p.hosts names ds cfg.hosts mem in
    (record (apply_values p ds cfg) { hosts = at }, mem')
