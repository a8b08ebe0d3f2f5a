-- ===== src/Handlers/Saving.antt =====
-- internal/ipc/handler/handler_forward.go: the rules in the configuration are those of the manager.
use mole_port.Base.{
  List, Map, Option, Option-cases, String, [], inl, inr, none, none-some, refl, some, subst, sym,
  ◌∷◌, ◌≡◌,
}
use mole_port.Core.Errors.{Error, Result, err, ok}
use mole_port.Core.Settings.{Config, ReconnectOverride, default_config}
use mole_port.Forward.Rules.{add_rule, get_rules}
use mole_port.Config.Memory.{Memory, host_view}
use mole_port.Config.Manager.{
  ConfigManager, YamlStore, config_path, current, update_config, write_and_keep, written,
}
use mole_port.Forward.Outcomes.Adding.{add_rule_refused}
use mole_port.Handlers.Params.{ForwardAddParams, Raw, and_then, parse_params}
use mole_port.Handlers.Forwards.{
  RuleState, add_checked, checked_rule, delete_checked, forward_add, forward_delete, named,
  rule_added, rule_deleted, save_forward_rules_to_config,
}
use mole_port.Core.Models.{ForwardRule}
use mole_port.Forward.State.{Manager}
use mole_port.Forward.Lifecycle.{delete_rule}
use mole_port.Config.Validation.{Checked, accepted, refused}

-- A request that changes the rules
pub data RuleRequest : Type 0 where
  adds : Raw ForwardAddParams → RuleRequest
  deletes : Raw String → RuleRequest

-- The configuration that LoadConfig reads from the disk has these rules.
abbrev pub Stores : (store : YamlStore) → store.Disk → String → List ForwardRule → Type 0
unfolding default_config
Stores store disk path rules =
    (mem : Memory)
    → (cfg : Config) × (mem' : Memory) × (store.read_config disk path default_config mem
        ≡ ok (cfg, mem'))
      × (cfg.forwards ≡ rules)

-- A store whose writes succeed, and which reads the rules that were written.
abbrev pub CanWrite : YamlStore → Type 0
CanWrite store =
    (disk : store.Disk) (path : String) (cfg : Config) (hosts : Map (Option ReconnectOverride))
    → ((store.write_config disk path cfg hosts).0 ≡ none)
      × Stores store (store.write_config disk path cfg hosts).1 path cfg.forwards

module _ (quote : String → String) (store : YamlStore) where
  unfoldable pub serve_rule : RuleRequest → RuleState quote store → RuleState quote store
  unfolding forward_add forward_delete
  serve_rule (adds raw) s = (forward_add quote store raw s).1
  serve_rule (deletes raw) s = (forward_delete quote store raw s).1

  abbrev pub serve_rules : List RuleRequest → RuleState quote store → RuleState quote store
  serve_rules [] s = s
  serve_rules (r ∷ rs) s = serve_rules rs (serve_rule r s)

  -- The configuration on the disk has the rules of the manager, in their order.
  unfoldable pub IsSaved : RuleState quote store → Type 0
  IsSaved s = Stores store s.config.disk (config_path store s.config) (get_rules s.forwards)

  Stores-written :
      (cfg : Config) (mem : Memory) (x : Option Error × store.Disk) (m : ConfigManager store)
      (rules : List ForwardRule)
      → Stores store x.1 (config_path store m) rules
      → Stores store
          (written store cfg mem x m).1.disk
          (config_path store (written store cfg mem x m).1)
          rules
  unfolding written
  Stores-written cfg mem (none, disk) m rules h = h
  Stores-written cfg mem (some e, disk) m rules h = h

  save-IsSaved :
      CanWrite store
      → (s : RuleState quote store) → IsSaved (save_forward_rules_to_config quote store s)
  unfolding IsSaved save_forward_rules_to_config update_config write_and_keep
  save-IsSaved can s =
      let cfg : Config = record (current store s.config) { forwards = get_rules s.forwards } in
      let mem = s.config.memory in
      let hosts = host_view mem cfg.hosts in
      Stores-written cfg mem
        (store.write_config s.config.disk (config_path store s.config) cfg hosts) s.config
        (get_rules s.forwards) (can s.config.disk (config_path store s.config) cfg hosts).1

  -- A refused request leaves the list of rules and the configuration.
  rule_added-IsSaved :
      CanWrite store
      → (x : Result String × Manager) (s : RuleState quote store)
      → ((e : Error) → x.0 ≡ err e → get_rules x.1 ≡ get_rules s.forwards)
      → IsSaved s
      → IsSaved (rule_added quote store x s).1
  unfolding rule_added IsSaved
  rule_added-IsSaved can (err e, m) s refused_same saved =
      subst (Stores store s.config.disk (config_path store s.config)) (sym (refused_same e refl))
        saved
  rule_added-IsSaved can (ok name, m) s refused_same saved =
      save-IsSaved can (record s { forwards = m })

  add_checked-IsSaved :
      CanWrite store
      → (c : Checked ForwardRule) (s : RuleState quote store) → IsSaved s
      → IsSaved (add_checked quote store c s).1
  unfolding add_checked
  add_checked-IsSaved can (refused e) s saved = saved
  add_checked-IsSaved can (accepted rule) s saved =
      rule_added-IsSaved can (add_rule rule s.forwards) s
        (λ e h. add_rule_refused rule s.forwards e h) saved

  rule_deleted-IsSaved :
      CanWrite store
      → (x : Option Error × Manager) (s : RuleState quote store)
      → ((e : Error) → x.0 ≡ some e → x.1 ≡ s.forwards)
      → IsSaved s
      → IsSaved (rule_deleted quote store x s).1
  unfolding rule_deleted IsSaved
  rule_deleted-IsSaved can (some e, m) s refused_same saved =
      subst (λ k. Stores store s.config.disk (config_path store s.config) (get_rules k))
        (sym (refused_same e refl)) saved
  rule_deleted-IsSaved can (none, m) s refused_same saved =
      save-IsSaved can (record s { forwards = m })

  delete_rule-refused :
      (name : String) (m : Manager) (e : Error)
      → (delete_rule name m).0 ≡ some e
      → (delete_rule name m).1 ≡ m
  unfolding delete_rule
  delete_rule-refused name m e h = elim (Option-cases (m.rules name)) [
    | inl gone ↦ rw (delete_rule, gone) refl
    | inr (rule, here) ↦ elim (none-some e (rw (delete_rule, here) at h)) [ ]
  ]

  delete_checked-IsSaved :
      CanWrite store
      → (c : Checked String) (s : RuleState quote store) → IsSaved s
      → IsSaved (delete_checked quote store c s).1
  unfolding delete_checked
  delete_checked-IsSaved can (refused e) s saved = saved
  delete_checked-IsSaved can (accepted name) s saved =
      rule_deleted-IsSaved can (delete_rule name s.forwards) s
        (λ e h. delete_rule-refused name s.forwards e h) saved

  serve_rule-IsSaved :
      CanWrite store
      → (r : RuleRequest) (s : RuleState quote store) → IsSaved s
      → IsSaved (serve_rule r s)
  unfolding serve_rule forward_add forward_delete
  serve_rule-IsSaved can (adds raw) s saved =
      add_checked-IsSaved can (and_then (parse_params raw) (checked_rule quote)) s saved
  serve_rule-IsSaved can (deletes raw) s saved =
      delete_checked-IsSaved can (named quote raw) s saved

-- While the configuration can be written: after any sequence of requests that add and delete rules, those that are
-- refused included, the rules on the disk are the rules of the manager in their order, if they were so
-- before.
pub serve_rules-IsSaved :
    (quote : String → String) (store : YamlStore)
    → CanWrite store
    → (rs : List RuleRequest) (s : RuleState quote store) → IsSaved quote store s
    → IsSaved quote store (serve_rules quote store rs s)
serve_rules-IsSaved quote store can [] s saved = saved
serve_rules-IsSaved quote store can (r ∷ rs) s saved =
    serve_rules-IsSaved quote store can rs (serve_rule quote store r s)
      (serve_rule-IsSaved quote store can r s saved)
