-- ===== src/Daemon/Restart.antt =====
-- internal/daemon/daemon.go with the handlers of rules: a daemon that starts on the configuration of another.
use mole_port.Base.{
  List, Option, String, [], ap, none, none-some, refl, some, subst, sym, ℕ, ◌∙◌, ◌∷◌, ◌≡◌,
}
use mole_port.Core.Errors.{Error, Result, err, ok}
use mole_port.Core.Models.{ForwardRule}
use mole_port.Forward.State.{Manager, new}
use mole_port.Forward.Rules.{add_rule, get_rules}
use mole_port.Forward.Invariant.{IsOrdered}
use mole_port.Forward.Invariant.Naming.{add_rule-IsOrdered, delete_rule-IsOrdered}
use mole_port.Core.SshPort.{SshPort}
use mole_port.Daemon.PidFile.{Machine}
use mole_port.Config.Memory.{Memory, empty_memory}
use mole_port.Core.Settings.{Config, default_config}
use mole_port.Config.Manager.{
  ConfigManager, YamlStore, config_path, load_config, new_config_manager,
}
use mole_port.Handlers.Saving.{
  CanWrite, IsSaved, RuleRequest, Stores, adds, deletes, serve_rule, serve_rules,
  serve_rules-IsSaved,
}
use mole_port.Daemon.Process.{daemon_of, load_rules, loaded_or_default, new_daemon}
use mole_port.Daemon.Loading.{AllFixed, add_rule-AllFixed, delete_rule-AllFixed}
use mole_port.Forward.Lifecycle.{delete_rule}
use mole_port.Config.Validation.{Checked, accepted, refused}
use mole_port.Handlers.Params.{and_then, parse_params}
use mole_port.Handlers.Forwards.{
  RuleState, add_checked, checked_rule, delete_checked, forward_add, forward_delete, named,
  rule_added, rule_deleted, save_forward_rules_to_config,
}
use mole_port.Daemon.Loads.{load_rules-get_rules, new-IsOrdered}

-- The rules of a manager that can be loaded again
unfoldable pub IsKept : Manager → Type 0
IsKept m = IsOrdered m × AllFixed m

module _ (quote : String → String) (store : YamlStore) where
  rule_added-IsKept :
      (x : Result String × Manager) (s : RuleState quote store)
      → IsKept x.1
      → IsKept (rule_added quote store x s).1.forwards
  unfolding rule_added save_forward_rules_to_config
  rule_added-IsKept (err e, m) s k = k
  rule_added-IsKept (ok name, m) s k = k

  add_checked-IsKept :
      (c : Checked ForwardRule) (s : RuleState quote store)
      → IsKept s.forwards
      → IsKept (add_checked quote store c s).1.forwards
  unfolding add_checked IsKept
  add_checked-IsKept (refused e) s k = k
  add_checked-IsKept (accepted rule) s (o, all) =
      rule_added-IsKept (add_rule rule s.forwards) s
        (add_rule-IsOrdered rule o, add_rule-AllFixed rule s.forwards all)

  rule_deleted-IsKept :
      (x : Option Error × Manager) (s : RuleState quote store)
      → IsKept x.1
      → IsKept (rule_deleted quote store x s).1.forwards
  unfolding rule_deleted save_forward_rules_to_config
  rule_deleted-IsKept (some e, m) s k = k
  rule_deleted-IsKept (none, m) s k = k

  delete_checked-IsKept :
      (c : Checked String) (s : RuleState quote store)
      → IsKept s.forwards
      → IsKept (delete_checked quote store c s).1.forwards
  unfolding delete_checked IsKept
  delete_checked-IsKept (refused e) s k = k
  delete_checked-IsKept (accepted name) s (o, all) =
      rule_deleted-IsKept (delete_rule name s.forwards) s
        (delete_rule-IsOrdered name o, delete_rule-AllFixed name s.forwards all)

  serve_rules-IsKept :
      (rs : List RuleRequest) (s : RuleState quote store)
      → IsKept s.forwards
      → IsKept (serve_rules quote store rs s).forwards
  unfolding serve_rule forward_add forward_delete
  serve_rules-IsKept [] s k = k
  serve_rules-IsKept (adds raw ∷ rs) s k =
      serve_rules-IsKept rs (serve_rule quote store (adds raw) s)
        (add_checked-IsKept (and_then (parse_params raw) (checked_rule quote)) s k)
  serve_rules-IsKept (deletes raw ∷ rs) s k =
      serve_rules-IsKept rs (serve_rule quote store (deletes raw) s)
        (delete_checked-IsKept (named quote raw) s k)

  -- A manager without rules and a configuration without rules, to begin with
  unfoldable pub fresh_rules : ConfigManager store → RuleState quote store
  unfolding new
  fresh_rules config = record { forwards = new; config = config }

load_config-read :
    (store : YamlStore) (m : ConfigManager store) (cfg : Config) (mem : Memory)
    → store.read_config m.disk (config_path store m) default_config m.memory ≡ ok (cfg, mem)
    → (load_config store m).0 ≡ ok cfg
unfolding load_config default_config
load_config-read store m cfg mem h = rw (load_config, h) refl

daemon_of-rules :
    (ssh : SshPort) (store : YamlStore) (version : String) (process : ℕ) (st : ssh.State)
    (w : Machine) (x : Result Config × ConfigManager store) (cfg : Config)
    → x.0 ≡ ok cfg
    → let d = daemon_of ssh store version process st w x in
      (d.warnings ≡ (load_rules cfg.forwards ([], new)).0)
      × (d.forwards ≡ (load_rules cfg.forwards ([], new)).1)
unfolding daemon_of new loaded_or_default
daemon_of-rules ssh store version process st w (answer, config) cfg h =
    subst
      (λ a.
        ((daemon_of ssh store version process st w (a, config)).warnings
          ≡ (load_rules cfg.forwards ([], new)).0)
        × ((daemon_of ssh store version process st w (a, config)).forwards
            ≡ (load_rules cfg.forwards ([], new)).1))
      (sym h) (refl, refl)

-- A daemon that New makes of a configuration that is read
pub new_daemon-read :
    (ssh : SshPort) (store : YamlStore) (dir version : String) (process : ℕ) (st : ssh.State)
    (w : Machine) (disk : store.Disk) (rules : List ForwardRule)
    → Stores store disk (config_path store (new_config_manager store dir disk)) rules
    → let d = new_daemon ssh store dir version process st w disk in
      (d.warnings ≡ (load_rules rules ([], new)).0) × (d.forwards ≡ (load_rules rules ([], new)).1)
unfolding new_daemon new_config_manager
new_daemon-read ssh store dir version process st w disk rules reads =
    let m = new_config_manager store dir disk in
    let (cfg, mem, is, same) = reads empty_memory in
    let (quiet, rules_) =
      daemon_of-rules ssh store version process st w (load_config store m) cfg
        (load_config-read store m cfg mem is) in
    (
      quiet ∙ ap (λ (l : List ForwardRule). (load_rules l ([], new)).0) same,
      rules_ ∙ ap (λ (l : List ForwardRule). (load_rules l ([], new)).1) same,
    )

-- The manager after requests of a daemon that began without rules
pub served-IsKept :
    (quote : String → String) (store : YamlStore) (rs : List RuleRequest)
    (config : ConfigManager store)
    → IsKept (serve_rules quote store rs (fresh_rules quote store config)).forwards
unfolding IsKept AllFixed fresh_rules new
served-IsKept quote store rs config =
    serve_rules-IsKept quote store rs (fresh_rules quote store config)
      (new-IsOrdered, λ a r e. elim (none-some r e) [ ])

-- What is on the disk after requests to such a daemon
pub served-IsSaved :
    (quote : String → String) (store : YamlStore)
    → CanWrite store
    → (rs : List RuleRequest) (config : ConfigManager store)
    → Stores store config.disk (config_path store config) []
    → let s = serve_rules quote store rs (fresh_rules quote store config) in
      Stores store s.config.disk
        (config_path store (new_config_manager store s.config.config_dir s.config.disk))
        (get_rules s.forwards)
unfolding IsSaved fresh_rules get_rules new new_config_manager
served-IsSaved quote store can rs config empty =
    serve_rules-IsSaved quote store can rs (fresh_rules quote store config) empty

-- While the configuration can be written and is read as it was written: after any sequence of requests that
-- add and delete rules, refused ones included, the daemon that New makes of what is on the disk loads
-- every rule without a warning, and has the rules that the first daemon had, in their order. The
-- configuration on the disk has no rules to begin with.
pub new_daemon-serve_rules :
    (quote : String → String) (ssh : SshPort) (store : YamlStore)
    → CanWrite store
    → (rs : List RuleRequest) (config : ConfigManager store) (version : String) (process : ℕ)
      (st : ssh.State) (w : Machine)
    → Stores store config.disk (config_path store config) []
    → let s = serve_rules quote store rs (fresh_rules quote store config) in
      let d = new_daemon ssh store s.config.config_dir version process st w s.config.disk in
      (d.warnings ≡ []) × (get_rules d.forwards ≡ get_rules s.forwards)
unfolding IsKept
new_daemon-serve_rules quote ssh store can rs config version process st w empty =
    let s = serve_rules quote store rs (fresh_rules quote store config) in
    let saved = served-IsSaved quote store can rs config empty in
    let (o, all) = served-IsKept quote store rs config in
    let (quiet, same) = load_rules-get_rules s.forwards o all in
    let (warnings, forwards) =
      new_daemon-read ssh store s.config.config_dir version process st w s.config.disk
        (get_rules s.forwards) saved in
    (warnings ∙ quiet, ap get_rules forwards ∙ same)
