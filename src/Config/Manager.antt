-- ===== src/Config/Manager.antt =====
-- internal/core/config.go: the configuration manager. The YAML store is a parameter; it is given a path
-- and the contents, the shared objects included.
use mole_port.Base.{Bool, Map, Option, String, [], if◌then◌else◌, none, some, ◌<>◌}
use mole_port.Core.Errors.{Error, Result, err, ok}
use mole_port.Core.Settings.{Config, ReconnectOverride, State, default_config}
use mole_port.Config.Memory.{Memory, empty_memory, host_view}

-- YAMLStore: reading fills the configuration that it is given, and may add objects to the memory.
pub record YamlStore : Type 1 where
  pub Disk : Type 0
  pub read_config : Disk → String → Config → Memory → Result (Config × Memory)
  pub write_config : Disk → String → Config → Map (Option ReconnectOverride) → Option Error × Disk
  pub read_state : Disk → String → State → Result State
  pub write_state : Disk → String → State → Option Error × Disk
  pub remove : Disk → String → Option Error × Disk
  pub is_not_exist : Error → Bool

module _ (store : YamlStore) where
  pub record ConfigManager : Type 0 where
    pub config_dir : String
    pub cached : Option Config
    pub memory : Memory
    pub disk : store.Disk

  -- filepath.Join with a directory that ends in no slash
  abbrev pub config_path : ConfigManager → String
  config_path m = m.config_dir <> "/config.yaml"

  abbrev pub state_path : ConfigManager → String
  state_path m = m.config_dir <> "/state.yaml"

  -- NewConfigManager
  unfoldable pub new_config_manager : String → store.Disk → ConfigManager
  new_config_manager dir disk = record {
    config_dir = dir;
    cached = none;
    memory = empty_memory;
    disk = disk;
  }

  -- LoadConfig; the pointer that it returns is that of the cache.
  unfoldable pub load_config : ConfigManager → Result Config × ConfigManager
  unfolding default_config
  load_config m = elim (store.read_config m.disk (config_path m) default_config m.memory) [
    | err e ↦ (err e, m)
    | ok (cfg, mem) ↦ (ok cfg, record m { cached = some cfg; memory = mem })
  ]

  -- `*m.cached`, or the default where there is none
  unfoldable pub current : ConfigManager → Config
  unfolding default_config
  current m = elim m.cached [ none ↦ default_config | some cfg ↦ cfg ]

  -- GetConfig
  unfoldable pub get_config : ConfigManager → Config
  unfolding current
  get_config m = current m

  unfoldable pub written :
      Config → Memory → Option Error × store.Disk → ConfigManager → Option Error × ConfigManager
  written cfg mem (some e, disk) m = (some e, record m { memory = mem; disk = disk })
  written cfg mem (none, disk) m = (none, record m { cached = some cfg; memory = mem; disk = disk })

  -- store.Write(m.configPath(), ...), then the cache where that succeeds
  unfoldable pub write_and_keep : Config → Memory → ConfigManager → Option Error × ConfigManager
  unfolding written host_view
  write_and_keep cfg mem m =
      written cfg mem (store.write_config m.disk (config_path m) cfg (host_view mem cfg.hosts)) m

  -- SaveConfig
  unfoldable pub save_config : Config → ConfigManager → Option Error × ConfigManager
  unfolding write_and_keep
  save_config cfg m = write_and_keep cfg m.memory m

  -- UpdateConfig, for a function that changes the copy and the objects it shares
  unfoldable pub update_config :
      (Config → Memory → Config × Memory) → ConfigManager → Option Error × ConfigManager
  unfolding current write_and_keep
  update_config fn m = let (cfg, mem) = fn (current m) m.memory in write_and_keep cfg mem m

  -- LoadState
  unfoldable pub load_state : ConfigManager → Result State
  load_state m =
      store.read_state m.disk (state_path m)
        (record { last_updated = 0; active_forwards = []; selected_host = "" })

  -- SaveState
  unfoldable pub save_state : State → ConfigManager → Option Error × ConfigManager
  save_state s m =
      let (e, disk) = store.write_state m.disk (state_path m) s in (e, record m { disk = disk })

  unfoldable pub ignore_missing : Option Error → Option Error
  ignore_missing none = none
  ignore_missing (some e) = if store.is_not_exist e then none else some e

  -- DeleteState
  unfoldable pub delete_state : ConfigManager → Option Error × ConfigManager
  unfolding ignore_missing
  delete_state m =
      let (e, disk) = store.remove m.disk (state_path m) in
      (ignore_missing e, record m { disk = disk })
