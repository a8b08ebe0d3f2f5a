-- ===== src/Config/Handler.antt =====
-- internal/ipc/handler/config/handler.go: config.get and config.update. json.Unmarshal and
-- time.Duration.String are parameters.
use mole_port.Base.{List, Option, String, none, some, ℤ, ◌<>◌}
use mole_port.Core.Errors.{Error}
use mole_port.Core.Settings.{Config, ReconnectOverride}
use mole_port.Config.Memory.{Memory, host_view}
use mole_port.Config.Manager.{ConfigManager, YamlStore, update_config}
use mole_port.Config.Params.{
  ConfigGetResult, ConfigUpdateParams, HostConfigInfo, ReconnectOverrideInfo,
}
use mole_port.Config.Validation.{Checked, Durations, Parsed, accepted, refused, validate_params}
use mole_port.Config.Applying.{apply_params}
use mole_port.Protocol.Codes.{internal_error, invalid_params, to_rpc_error}

module _ (show : ℤ → String) where
  show_option : Option ℤ → Option String
  show_option none = none
  show_option (some d) = some (show d)

  unfoldable pub override_info : ReconnectOverride → ReconnectOverrideInfo
  unfolding show_option
  override_info o = record {
    enabled = o.enabled;
    max_retries = o.max_retries;
    initial_delay = show_option o.initial_delay;
    max_delay = show_option o.max_delay;
  }

  -- The loop that fills `result.Hosts`, read at a name
  unfoldable pub host_info : Option (Option ReconnectOverride) → Option HostConfigInfo
  unfolding override_info
  host_info none = none
  host_info (some none) = some (record { reconnect = none })
  host_info (some (some o)) = some (record { reconnect = some (override_info o) })

  -- Get
  unfoldable pub get_result : Config → Memory → ConfigGetResult
  unfolding host_info host_view
  get_result cfg mem = record {
    ssh_config_path = cfg.ssh_config_path;
    reconnect = record {
      enabled = cfg.reconnect.enabled;
      max_retries = cfg.reconnect.max_retries;
      initial_delay = show cfg.reconnect.initial_delay;
      max_delay = show cfg.reconnect.max_delay;
      keep_alive_interval = show cfg.reconnect.keep_alive_interval;
    };
    hosts = λ name. host_info (host_view mem cfg.hosts name);
    auto_restore = cfg.session.auto_restore;
    log = record { level = cfg.log.level; file = cfg.log.file };
    language = cfg.language;
    update_check = record {
      enabled = cfg.update_check.enabled;
      interval = show cfg.update_check.interval;
    };
    theme = record { base = cfg.tui.theme.base; accent = cfg.tui.theme.accent };
  }

pub data Decoded : Type 0 where
  no_params : Decoded
  malformed : String → Decoded
  decoded : ConfigUpdateParams → Decoded

module _ (quote : String → String) (parse_duration : String → Parsed) (store : YamlStore) where
  unfoldable pub answer_update :
      Option Error × ConfigManager store → Checked (Unit {0}) × ConfigManager store
  unfolding to_rpc_error
  answer_update (none, m) = (accepted tt, m)
  answer_update (some e, m) = (refused (to_rpc_error quote e internal_error), m)

  unfoldable pub apply_checked :
      ConfigUpdateParams
      → List String
      → Checked Durations
      → ConfigManager store
      → Checked (Unit {0}) × ConfigManager store
  unfolding answer_update update_config apply_params
  apply_checked p names (refused e) m = (refused e, m)
  apply_checked p names (accepted ds) m =
      answer_update (update_config store (apply_params p names ds) m)

  -- Update: `names` and `later` are the orders of the two loops over the hosts.
  unfoldable pub update :
      Decoded
      → List String
      → List String
      → ConfigManager store
      → Checked (Unit {0}) × ConfigManager store
  unfolding validate_params apply_checked
  update no_params names later m =
      (refused (record { code = invalid_params; message = "params required" }), m)
  update (malformed text) names later m =
      (refused (record { code = invalid_params; message = "invalid params: " <> text }), m)
  update (decoded p) names later m =
      apply_checked p later (validate_params parse_duration p names) m
