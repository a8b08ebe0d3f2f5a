-- ===== src/Handlers/Examples.antt =====
-- Runs of the handlers.
use mole_port.Base.{List, String, [], false, no_entries, none, pos, refl, some, ◌∷◌, ◌≡◌}
use mole_port.Core.Errors.{already_exists, err, ok}
use mole_port.Core.Enums.{disconnected, local}
use mole_port.Core.Models.{ForwardRule, SshHost}
use mole_port.Forward.Rules.{add_rule, get_rules}
use mole_port.Core.Settings.{Config, default_config}
use mole_port.Config.Manager.{ConfigManager, YamlStore, new_config_manager}
use mole_port.Daemon.Process.{new_daemon}
use mole_port.Core.SshPort.{SshPort}
use mole_port.Daemon.PidFile.{Machine}
use mole_port.Handlers.Saving.{RuleRequest, adds, deletes, serve_rule, serve_rules}
use mole_port.Daemon.Names.{new_daemon-collides}
use mole_port.Daemon.Restart.{fresh_rules, new_daemon-serve_rules}
use mole_port.Handlers.Params.{ForwardAddParams, missing, read}
use mole_port.Ssh.State.{SshManager, new_ssh_manager}
use mole_port.Ssh.Hosts.{set_hosts}
use mole_port.Handlers.Hosts.{host_reload}
use mole_port.Handlers.Differences.{IsDifference, host_reload-IsDifference}
use mole_port.Forward.State.{new}

abbrev plain_quote : String → String
plain_quote s = s

-- A store whose disk is the last configuration
abbrev store : YamlStore
store = record {
  Disk = Config;
  read_config = λ disk path cfg mem. ok (disk, mem);
  write_config = λ disk path cfg hosts. (none, cfg);
  read_state = λ disk path s. ok s;
  write_state = λ disk path s. (none, disk);
  remove = λ disk path. (none, disk);
  is_not_exist = λ e. false;
}

abbrev web : ForwardAddParams
web = record {
  name = "web";
  host = "prod";
  type = "local";
  local_port = pos 8080;
  remote_host = "localhost";
  remote_port = pos 80;
  remote_bind_addr = "";
  auto_connect = false;
}

abbrev requests : List RuleRequest
requests = adds (read web) ∷ adds missing ∷ deletes (read "db") ∷ []

abbrev config_manager : ConfigManager store
unfolding new_config_manager default_config
config_manager = new_config_manager store "/home" default_config

-- An SSH manager that is never asked
abbrev no_ssh : SshPort
no_ssh = record {
  State = Unit {0};
  is_connected = λ s host. false;
  connect_with_callback = λ s host. (none, s);
  get_ssh_connection = λ s host. none;
  get_connection = λ s host. none;
  listen = λ s host call. none;
}

abbrev idle_machine : Machine
idle_machine = record { at_path = none; holder = λ i. none; contents = λ i. ""; next_file = 0 }

new_daemon-serve_rules_example :
    let s = serve_rules plain_quote store requests (fresh_rules plain_quote store config_manager) in
    let d = new_daemon no_ssh store s.config.config_dir "v1" 7 tt idle_machine s.config.disk in
    (d.warnings ≡ []) × (get_rules d.forwards ≡ get_rules s.forwards)
unfolding config_manager default_config
new_daemon-serve_rules_example =
    new_daemon-serve_rules plain_quote no_ssh store
      (λ disk path cfg hosts. (refl, λ mem. (cfg, mem, refl, refl))) requests config_manager "v1" 7
      tt idle_machine (λ mem. (default_config, mem, refl, refl))

-- A rule that is offered without a name
abbrev unnamed : ForwardAddParams
unnamed = record web { name = "" }

abbrev first_rule : ForwardRule
first_rule = record {
  name = "forward-1";
  host = "prod";
  type = local;
  local_port = pos 8080;
  remote_host = "localhost";
  remote_port = pos 80;
  remote_bind_addr = "";
  auto_connect = false;
}

abbrev one_request : List RuleRequest
one_request = adds (read unnamed) ∷ []

first_rule_there :
    (serve_rules plain_quote store one_request
        (fresh_rules plain_quote store config_manager)).forwards.rules
      "forward-1"
    ≡ some first_rule
unfolding serve_rule fresh_rules config_manager new default_config
first_rule_there = refl

new_daemon-collides_example :
    let s =
      serve_rules plain_quote store one_request (fresh_rules plain_quote store config_manager) in
    let d = new_daemon no_ssh store s.config.config_dir "v1" 7 tt idle_machine s.config.disk in
    (add_rule (record first_rule { name = "" }) d.forwards).0
    ≡ err (already_exists "rule" "forward-1")
unfolding config_manager default_config
new_daemon-collides_example =
    new_daemon-collides plain_quote no_ssh store
      (λ disk path cfg hosts. (refl, λ mem. (cfg, mem, refl, refl))) one_request config_manager "v1"
      7 tt idle_machine first_rule (record first_rule { name = "" })
      (λ mem. (default_config, mem, refl, refl)) first_rule_there refl

abbrev host_named : String → SshHost
host_named name = record {
  name = name;
  host_name = name;
  port = pos 22;
  user = "me";
  identity_files = [];
  proxy_jump = [];
  proxy_command = "";
  strict_host_key_checking = "";
  state = disconnected;
  active_forward_count = 0;
}

abbrev two_hosts : SshManager
unfolding set_hosts new_ssh_manager
two_hosts =
    set_hosts (host_named "a" ∷ host_named "b" ∷ [])
      (new_ssh_manager default_config.reconnect no_entries)

host_reload-IsDifference_example :
    IsDifference
      (host_named "b" ∷ host_named "c" ∷ [])
      two_hosts
      (host_reload plain_quote (ok (host_named "b" ∷ host_named "c" ∷ [])) two_hosts).0
host_reload-IsDifference_example =
    host_reload-IsDifference plain_quote (host_named "b" ∷ host_named "c" ∷ []) two_hosts
