-- ===== src/Daemon/Process.antt =====
-- internal/daemon/daemon.go: New, Start, Stop and Shutdown. The goroutines that route events are those of
-- Routing; the calls on sockets and on the PID file come with their answers.
use mole_port.Base.{
  Bool, List, Option, String, [], false, if◌then◌else◌, none, some, true, ℕ, ◌++◌, ◌∷◌,
}
use mole_port.Core.Errors.{Error, Result, err, ok, wrap}
use mole_port.Core.Models.{ForwardRule}
use mole_port.Core.Settings.{Config, State, default_config}
use mole_port.Core.SshPort.{SshPort}
use mole_port.Forward.State.{Manager, new}
use mole_port.Forward.Rules.{add_rule}
use mole_port.Forward.Lifecycle.{close, stop_all_forwards}
use mole_port.Config.Manager.{
  ConfigManager, YamlStore, delete_state, get_config, load_config, load_state, new_config_manager,
  save_state,
}
use mole_port.Update.Checker.{VersionChecker, new_version_checker, start, stop}
use mole_port.Daemon.Startup.{auto_start_forwards, restore_state, saved_rules}
use mole_port.Daemon.PidFile.{FileCalls, Machine, PidFile, acquire, new_pid_file, release}

-- A rule that is refused leaves a warning with its name.
abbrev pub warned :
    String → List (String × Error) → Result String × Manager → List (String × Error) × Manager
warned name warnings (ok n, m) = (warnings, m)
warned name warnings (err e, m) = (warnings ++ ((name, e) ∷ []), m)

-- The loop of New over the rules of the configuration
unfoldable pub load_rules :
    List ForwardRule → List (String × Error) × Manager → List (String × Error) × Manager
unfolding add_rule
load_rules [] x = x
load_rules (r ∷ rs) x = load_rules rs (warned r.name x.0 (add_rule r x.1))

-- The configuration that New works with
unfoldable pub loaded_or_default : Result Config → Config
unfolding default_config
loaded_or_default (ok cfg) = cfg
loaded_or_default (err e) = default_config

module _ (ssh : SshPort) (store : YamlStore) where
  -- Daemon; the texts of `warnings` print their fields
  pub record Daemon : Type 0 where
    pub config : ConfigManager store
    pub ssh_state : ssh.State
    pub forwards : Manager
    pub checker : VersionChecker
    pub pid_file : PidFile
    pub machine : Machine
    pub listening : Bool
    pub cancelled : Bool
    pub stopped : Bool
    pub purge : Bool
    pub warnings : List (String × Error)

  -- New behind LoadConfig, whose error is no error of New
  unfoldable pub daemon_of :
      String → ℕ → ssh.State → Machine → Result Config × ConfigManager store → Daemon
  unfolding load_rules new new_version_checker new_pid_file loaded_or_default
  daemon_of version process s w (answer, config) =
      let cfg = loaded_or_default answer in
      let (warnings, m) = load_rules cfg.forwards ([], new) in
      record {
        config = config;
        ssh_state = s;
        forwards = m;
        checker = new_version_checker version cfg.update_check.enabled cfg.update_check.interval;
        pid_file = new_pid_file process;
        machine = w;
        listening = false;
        cancelled = false;
        stopped = false;
        purge = false;
        warnings = warnings;
      }

  -- New, where the directory of the configuration can be made
  unfoldable pub new_daemon : String → String → ℕ → ssh.State → Machine → store.Disk → Daemon
  unfolding daemon_of load_config new_config_manager
  new_daemon dir version process s w disk =
      daemon_of version process s w (load_config store (new_config_manager store dir disk))

  -- What LoadState gives to restoreState
  abbrev pub active_forwards_of : Result State → Result (List ForwardRule)
  active_forwards_of (ok s) = ok s.active_forwards
  active_forwards_of (err e) = err e

  -- Start behind the start of the server: the version checker, restoreState and autoStartForwards
  unfoldable pub run_daemon : (String → ℕ) → Daemon → Daemon
  unfolding start restore_state auto_start_forwards get_config load_state
  run_daemon clock d =
      let cfg = get_config store d.config in
      let (s, m) = auto_start_forwards ssh clock cfg.forwards (
        restore_state ssh clock cfg.session.auto_restore
          (active_forwards_of (load_state store d.config)) (d.ssh_state, d.forwards)) in
      record d { ssh_state = s; forwards = m; checker = start d.checker; listening = true }

  -- The hosts are loaded first; an error of that is a warning.
  abbrev pub hosts_loaded : Option Error × ssh.State → Daemon → Daemon
  hosts_loaded (none, s) d = record d { ssh_state = s }
  hosts_loaded (some e, s) d = record d {
    ssh_state = s;
    warnings = d.warnings ++ (("SSH hosts", e) ∷ []);
  }

  -- Start behind the PID file, for the answer of the server's Start
  unfoldable pub start_acquired :
      (ssh.State → Option Error × ssh.State)
      → FileCalls
      → (String → ℕ)
      → Option Error
      → Daemon
      → Option Error × Daemon
  unfolding run_daemon release
  start_acquired load_hosts calls clock (some e) d =
      let (e', p, w) = release calls d.pid_file d.machine in
      (some (wrap "start ipc server" e), record d { pid_file = p; machine = w })
  start_acquired load_hosts calls clock none d =
      (none, run_daemon clock (hosts_loaded (load_hosts d.ssh_state) d))

  unfoldable pub start_with :
      (ssh.State → Option Error × ssh.State)
      → FileCalls
      → (String → ℕ)
      → Option Error
      → Daemon
      → Option Error × PidFile × Machine
      → Option Error × Daemon
  unfolding start_acquired
  start_with load_hosts calls clock listen d (some e, p, w) =
      (some (wrap "acquire pid file" e), record d { pid_file = p; machine = w })
  start_with load_hosts calls clock listen d (none, p, w) =
      start_acquired load_hosts calls clock listen
        (record d { pid_file = p; machine = w; stopped = false })

  -- Start
  unfoldable pub start_daemon :
      (ssh.State → Option Error × ssh.State)
      → FileCalls
      → (String → ℕ)
      → Option Error
      → Daemon
      → Option Error × Daemon
  unfolding start_with acquire
  start_daemon load_hosts calls clock listen d =
      start_with load_hosts calls clock listen d (acquire calls d.pid_file d.machine)

  -- DeleteState or saveState, whose errors go to the log
  unfoldable pub keep_state_file : ℕ → Daemon → Daemon
  unfolding delete_state save_state saved_rules
  keep_state_file now d =
      if d.purge then record d { config = (delete_state store d.config).1 } else record d {
        config =
            (save_state store
              (record {
                last_updated = now;
                active_forwards = saved_rules d.forwards;
                selected_host = "";
              })
              d.config).1;
      }

  -- Stop of a daemon that runs: `names` and `later` are the orders of the loops over the active forwards
  unfoldable pub stop_running :
      (ssh.State → ssh.State) → FileCalls → ℕ → List String → List String → Daemon → Daemon
  unfolding stop keep_state_file stop_all_forwards close release
  stop_running close_ssh calls now names later d =
      let d' =
        keep_state_file now
          (record d { stopped = true; cancelled = true; checker = stop d.checker }) in
      let (e, p, w) = release calls d'.pid_file d'.machine in
      record d' {
        forwards = close later (stop_all_forwards names d'.forwards);
        ssh_state = close_ssh d'.ssh_state;
        listening = false;
        pid_file = p;
        machine = w;
      }

  -- Stop, whose error is always nil
  unfoldable pub stop_daemon :
      (ssh.State → ssh.State) → FileCalls → ℕ → List String → List String → Daemon → Daemon
  unfolding stop_running
  stop_daemon close_ssh calls now names later d =
      if d.stopped then d else stop_running close_ssh calls now names later d

  -- Shutdown, whose error is always nil
  unfoldable pub shutdown : Bool → Daemon → Daemon
  shutdown purge d = record d { purge = purge; cancelled = true }
