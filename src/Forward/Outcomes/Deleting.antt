-- ===== src/Forward/Outcomes/Deleting.antt =====
-- internal/core/forward/manager.go: DeleteRule as its callers see it.
use mole_port.Base.{
  List, Option, Option-cases, String, [], arith, delete, delete_self, eq_iff, eq_refl, fun_ext, inl,
  inr, none, not, refl, select, some, str_eq, true, ◌∙◌, ◌∷◌, ◌≡◌,
}
use mole_port.Core.Models.{ForwardRule}
use mole_port.Core.Errors.{err, not_found}
use mole_port.Forward.State.{Manager}
use mole_port.Forward.Invariant.{IsOrdered, IsValid, OnlyRules}
use mole_port.Forward.Rules.{collect_rules, get_rules, remove_first}
use mole_port.Forward.Sessions.{get_session}
use mole_port.Forward.Lifecycle.{delete_rule}
use mole_port.Forward.Invariant.Naming.{rule_order-delete_rule, rules-delete_rule}
use mole_port.Forward.Invariant.Stopping.{active-stop_forward}
use mole_port.Forward.Operations.Rules.{delete_rule-sessions}

-- The rules but those of one name.
abbrev pub without : String → List ForwardRule → List ForwardRule
without name = select (λ r. not (str_eq r.name name))

collect_rules-delete :
    (m : Manager) (name : String) (xs : List String)
    → ((a : String) (r : ForwardRule) → m.rules a ≡ some r → r.name ≡ a)
    → collect_rules (λ r. true) (delete m.rules name) xs
      ≡ without name (collect_rules (λ r. true) m.rules xs)
unfolding collect_rules
collect_rules-delete m name [] own = refl
collect_rules-delete m name (x ∷ xs) own = elim (Option-cases (m.rules x)) [
  | inl absent ↦ ground (arith, absent, collect_rules-delete m name xs own)
  | inr (r, there) ↦ ground (
    arith,
    there,
    own x r there,
    eq_iff name x,
    eq_iff x name,
    collect_rules-delete m name xs own,
  )
]

-- Names that are not visited twice: removing one from the order leaves the list alone, once it is
-- gone from the map.
collect_rules-remove_first :
    (rules : String → Option ForwardRule) (name : String) (xs : List String)
    → rules name ≡ none
    → collect_rules (λ r. true) rules (remove_first name xs) ≡ collect_rules (λ r. true) rules xs
unfolding collect_rules remove_first
collect_rules-remove_first rules name [] h = refl
collect_rules-remove_first rules name (x ∷ xs) h =
    ground (arith, eq_iff x name, collect_rules-remove_first rules name xs h)

get_rules-delete :
    (name : String) {m : Manager}
    → IsOrdered m
    → get_rules (delete_rule name m).1 ≡ without name (get_rules m)
unfolding get_rules
get_rules-delete name {m} o =
    let rules : (delete_rule name m).1.rules ≡ delete m.rules name =
      fun_ext (λ a. rules-delete_rule name m a) in
    rw (rules, rule_order-delete_rule name o)
      (collect_rules-remove_first (delete m.rules name) name m.rule_order (delete_self m.rules name)
        ∙ collect_rules-delete m name m.rule_order o.own_name)

active-delete_rule :
    (name : String) (m : Manager) → OnlyRules m → (delete_rule name m).1.active name ≡ none
active-delete_rule name m only = elim (delete_rule-sessions name m) [
  | inl (absent, e) ↦ elim (Option-cases (m.active name)) [
    | inl f ↦ rw (e) f
    | inr (p, there) ↦ absurd (only name (λ g. cc (g, there)) absent)
  ]
  | inr e ↦ rw (e.active, active-stop_forward name m name, eq_refl name) refl
]

-- After DeleteRule the list of rules is the old one without the rule of that name, in the old order,
-- and the name is neither active nor known. This holds whether or not there was such a rule.
pub get_rules-delete_rule :
    (name : String) {m : Manager}
    → IsValid m
    → (get_rules (delete_rule name m).1 ≡ without name (get_rules m))
      × ((delete_rule name m).1.active name ≡ none)
      × (get_session name (delete_rule name m).1 ≡ err (not_found "rule" name))
get_rules-delete_rule name {m} v =
    let gone = active-delete_rule name m v.only_rules in
    (
      get_rules-delete name v.ordered,
      gone,
      unfold get_session in ground (arith, gone, rules-delete_rule name m name, eq_refl name),
    )
