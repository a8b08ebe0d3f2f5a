-- ===== src/Core/Settings.antt =====
-- internal/core/types_models.go: the configuration and the saved state. A duration is a signed
-- number of nanoseconds; a pointer to an optional value is an `Option`.
use mole_port.Core.Models.{ForwardRule}
use mole_port.Base.{Bool, List, Option, String, [], none, pos, true, ℕ, ℤ, ◌*◌}

pub record ReconnectConfig : Type 0 where
  pub enabled : Bool
  pub max_retries : ℤ
  pub initial_delay : ℤ
  pub max_delay : ℤ
  pub keep_alive_interval : ℤ

pub record ReconnectOverride : Type 0 where
  pub enabled : Option Bool
  pub max_retries : Option ℤ
  pub initial_delay : Option ℤ
  pub max_delay : Option ℤ

-- time.Second
abbrev pub second : ℕ
second = 1000000000

-- time.Hour
abbrev pub hour : ℕ
hour = 3600 * second

-- `&core.ReconnectOverride{}`
abbrev pub no_override : ReconnectOverride
no_override = record { enabled = none; max_retries = none; initial_delay = none; max_delay = none }

pub record UpdateCheckConfig : Type 0 where
  pub enabled : Bool
  pub interval : ℤ

pub record SessionConfig : Type 0 where
  pub auto_restore : Bool

pub record LogConfig : Type 0 where
  pub level : String
  pub file : String

pub record ThemeConfig : Type 0 where
  pub base : String
  pub accent : String

pub record TuiConfig : Type 0 where
  pub theme : ThemeConfig

-- HostConfig: the pointer is an address of `Config.Memory`, where overrides are shared.
pub record HostConfig : Type 0 where
  pub reconnect : Option ℕ

-- Config: `hosts` is the address of the map in the same memory, `none` for nil.
pub record Config : Type 0 where
  pub ssh_config_path : String
  pub reconnect : ReconnectConfig
  pub hosts : Option ℕ
  pub session : SessionConfig
  pub log : LogConfig
  pub forwards : List ForwardRule
  pub language : String
  pub update_check : UpdateCheckConfig
  pub tui : TuiConfig

pub record State : Type 0 where
  pub last_updated : ℕ
  pub active_forwards : List ForwardRule
  pub selected_host : String

-- DefaultConfig
unfoldable pub default_config : Config
default_config = record {
  ssh_config_path = "~/.ssh/config";
  reconnect = record {
    enabled = true;
    max_retries = pos 10;
    initial_delay = pos second;
    max_delay = pos (60 * second);
    keep_alive_interval = pos (30 * second);
  };
  hosts = none;
  session = record { auto_restore = true };
  log = record { level = "info"; file = "~/.config/moleport/moleport.log" };
  forwards = [];
  language = "";
  update_check = record { enabled = true; interval = pos (24 * hour) };
  tui = record { theme = record { base = ""; accent = "" } };
}
