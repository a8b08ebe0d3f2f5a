-- ===== src/Config/Params.antt =====
-- internal/ipc/protocol/protocol_config.go: the parameters of config.update and the result of config.get.
-- A nil pointer means no change.
use mole_port.Base.{Bool, Map, Option, String, ℤ}

pub record ReconnectUpdateInfo : Type 0 where
  pub enabled : Option Bool
  pub max_retries : Option ℤ
  pub initial_delay : Option String
  pub max_delay : Option String
  pub keep_alive_interval : Option String

pub record HostConfigUpdateInfo : Type 0 where
  pub reconnect : Option ReconnectUpdateInfo

pub record SessionCfgUpdateInfo : Type 0 where
  pub auto_restore : Option Bool

pub record LogUpdateInfo : Type 0 where
  pub level : Option String
  pub file : Option String

pub record UpdateCheckUpdateInfo : Type 0 where
  pub enabled : Option Bool
  pub interval : Option String

pub record ThemeUpdateInfo : Type 0 where
  pub base : Option String
  pub accent : Option String

pub record TuiUpdateInfo : Type 0 where
  pub theme : Option ThemeUpdateInfo

-- `hosts` is nil or a map from a name to a pointer, which is nil for a name to delete.
pub record ConfigUpdateParams : Type 0 where
  pub ssh_config_path : Option String
  pub reconnect : Option ReconnectUpdateInfo
  pub hosts : Option (Map (Option HostConfigUpdateInfo))
  pub session : Option SessionCfgUpdateInfo
  pub log : Option LogUpdateInfo
  pub language : Option String
  pub update_check : Option UpdateCheckUpdateInfo
  pub tui : Option TuiUpdateInfo

pub record ReconnectInfo : Type 0 where
  pub enabled : Bool
  pub max_retries : ℤ
  pub initial_delay : String
  pub max_delay : String
  pub keep_alive_interval : String

pub record ReconnectOverrideInfo : Type 0 where
  pub enabled : Option Bool
  pub max_retries : Option ℤ
  pub initial_delay : Option String
  pub max_delay : Option String

pub record HostConfigInfo : Type 0 where
  pub reconnect : Option ReconnectOverrideInfo

pub record UpdateCheckInfo : Type 0 where
  pub enabled : Bool
  pub interval : String

pub record LogInfo : Type 0 where
  pub level : String
  pub file : String

pub record ThemeInfo : Type 0 where
  pub base : String
  pub accent : String

-- The records SessionCfgInfo and TUIInfo have one field, which stands for them.
pub record ConfigGetResult : Type 0 where
  pub ssh_config_path : String
  pub reconnect : ReconnectInfo
  pub hosts : Map HostConfigInfo
  pub auto_restore : Bool
  pub log : LogInfo
  pub language : String
  pub update_check : UpdateCheckInfo
  pub theme : ThemeInfo
