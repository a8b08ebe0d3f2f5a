-- ===== src/Daemon/Names.antt =====
-- internal/daemon/daemon.go with internal/core/forward/manager.go: the names that AddRule gives after a restart.
use mole_port.Base.{
  In, List, Map, Option-cases, String, [], ap, arith, eq_iff, inl, inr, itoa, none, refl, some,
  subst, sym, true, ℕ, ◌+◌, ◌<>◌, ◌∙◌, ◌∷◌, ◌≡◌, ◌≢◌, ◌⊎◌,
}
use mole_port.Core.Errors.{Error, already_exists, err, ok}
use mole_port.Forward.Races.{add_rule_collides}
use mole_port.Daemon.Restart.{IsKept, fresh_rules, new_daemon-read, served-IsKept, served-IsSaved}
use mole_port.Daemon.Loads.{
  Loads, Loads-store_rule, collected-Loads, collected_none, collected_some,
}
use mole_port.Core.Models.{ForwardRule}
use mole_port.Forward.State.{Manager, new}
use mole_port.Forward.Rules.{add_rule, collect_rules, get_rules, store_rule}
use mole_port.Core.SshPort.{SshPort}
use mole_port.Daemon.PidFile.{Machine}
use mole_port.Config.Manager.{ConfigManager, YamlStore, config_path}
use mole_port.Handlers.Saving.{CanWrite, RuleRequest, Stores, serve_rules}
use mole_port.Daemon.Process.{load_rules, new_daemon}
use mole_port.Daemon.Loading.{add_rule-IsFixed}

-- The names of rules
abbrev rule_names : List ForwardRule → List String
rule_names [] = []
rule_names (r ∷ rs) = r.name ∷ rule_names rs

stored_known :
    (r : ForwardRule) (m : Manager) (a : String)
    → (m.rules a ≢ none) ⊎ (r.name ≡ a)
    → (store_rule (ok r) m).1.rules a ≢ none
unfolding store_rule
stored_known r m a (inl known) gone = ground (arith, known, gone, eq_iff r.name a)
stored_known r m a (inr same) gone = ground (arith, same, gone, eq_iff r.name a)

stored-next_id : (r : ForwardRule) (m : Manager) → (store_rule (ok r) m).1.next_id ≡ m.next_id
unfolding store_rule
stored-next_id r m = refl

-- Loading rules that have names uses no number, and leaves no name out.
load_rules-names :
    (rs : List ForwardRule) (warnings : List (String × Error)) (m : Manager) (a : String)
    → Loads rs m
    → (m.rules a ≢ none) ⊎ In a (rule_names rs)
    → ((load_rules rs (warnings, m)).1.next_id ≡ m.next_id)
      × ((load_rules rs (warnings, m)).1.rules a ≢ none)
unfolding load_rules
load_rules-names [] warnings m a l (inl known) = (refl, known)
load_rules-names [] warnings m a l (inr i) = elim i [ ]
load_rules-names (r ∷ rs) warnings m a (fixed, free, apart, l) from =
    let known : ((store_rule (ok r) m).1.rules a ≢ none) ⊎ In a (rule_names rs) = elim from [
      | inl k ↦ inl (stored_known r m a (inl k))
      | inr i ↦ elim i [ inl e ↦ inl (stored_known r m a (inr (sym e))) | inr j ↦ inr j ]
    ] in
    rw (load_rules, add_rule-IsFixed r m fixed free)
      (load_rules-names rs warnings (store_rule (ok r) m).1 a (Loads-store_rule r m rs apart l)
        known)

-- A rule under a name is among those that are taken in an order that has the name.
collected-In :
    (rules : Map ForwardRule) (a : String) (r : ForwardRule) (xs : List String)
    → rules a ≡ some r
    → r.name ≡ a
    → In a xs
    → In a (rule_names (collect_rules (λ q. true) rules xs))
collected-In rules a r [] here own i = elim i [ ]
collected-In rules a r (x ∷ xs) here own (inl e) =
    subst (λ l. In a (rule_names l))
      (sym (collected_some rules x xs r (subst (λ y. rules y ≡ some r) e here))) (inl (sym own))
collected-In rules a r (x ∷ xs) here own (inr i) =
    let later = collected-In rules a r xs here own i in
    elim (Option-cases (rules x)) [
      | inl gone ↦ subst (λ l. In a (rule_names l)) (sym (collected_none rules x xs gone)) later
      | inr (q, e) ↦
          subst (λ l. In a (rule_names l)) (sym (collected_some rules x xs q e)) (inr later)
    ]

forward_one : "forward-" <> itoa 1 ≡ "forward-1"
unfolding itoa
forward_one = refl

-- The first name that is made up
first_name : (n : ℕ) → n ≡ 0 → "forward-" <> itoa (n + 1) ≡ "forward-1"
first_name n e = ap (λ (k : ℕ). "forward-" <> itoa (k + 1)) e ∙ forward_one

-- While the configuration can be written and is read as it was written: if the first daemon, which began
-- without rules, has a rule `forward-1` after some requests, then the daemon that New makes of what is
-- on the disk refuses the next rule that is offered without a name, because the name that it makes up
-- for it is taken.
pub new_daemon-collides :
    (quote : String → String) (ssh : SshPort) (store : YamlStore)
    → CanWrite store
    → (rs : List RuleRequest) (config : ConfigManager store) (version : String) (process : ℕ)
      (st : ssh.State) (w : Machine) (old rule : ForwardRule)
    → Stores store config.disk (config_path store config) []
    → (serve_rules quote store rs (fresh_rules quote store config)).forwards.rules "forward-1"
      ≡ some old
    → rule.name ≡ ""
    → let s = serve_rules quote store rs (fresh_rules quote store config) in
      let d = new_daemon ssh store s.config.config_dir version process st w s.config.disk in
      (add_rule rule d.forwards).0 ≡ err (already_exists "rule" "forward-1")
unfolding IsKept get_rules new
new_daemon-collides quote ssh store can rs config version process st w old rule empty there
      unnamed =
    let s = serve_rules quote store rs (fresh_rules quote store config) in
    let saved = served-IsSaved quote store can rs config empty in
    let (o, all) = served-IsKept quote store rs config in
    let (warnings, forwards) =
      new_daemon-read ssh store s.config.config_dir version process st w s.config.disk
        (get_rules s.forwards) saved in
    let (number, known) =
      load_rules-names (get_rules s.forwards) [] new "forward-1"
        (collected-Loads s.forwards new s.forwards.rule_order o all (λ a. refl) o.once)
        (inr (
          collected-In s.forwards.rules "forward-1" old s.forwards.rule_order there
            (o.own_name "forward-1" old there)
            (o.listed "forward-1" (λ e. ground (arith, e, there))))) in
    let loaded = (load_rules (get_rules s.forwards) ([], new)).1 in
    rw (forwards) (elim (Option-cases (loaded.rules "forward-1")) [
      | inl e ↦ absurd (known e)
      | inr (r, e) ↦
          let named = first_name loaded.next_id number in
          add_rule_collides rule r loaded unnamed
            (subst (λ a. loaded.rules a ≡ some r) (sym named) e)
          ∙ ap (λ a. err (already_exists "rule" a)) named
    ])
