-- ===== src/Forward/Operations/Rules.antt =====
-- internal/core/forward/manager.go: adding and deleting rules, and stopping, on a valid manager.
use mole_port.Base.{Option-cases, String, arith, inl, inr, none, refl, ◌∙◌, ◌≡◌, ◌≢◌, ◌⊎◌}
use mole_port.Core.Models.{ForwardRule}
use mole_port.Core.Errors.{Result, err, ok}
use mole_port.Forward.State.{Manager}
use mole_port.Forward.Invariant.{IsOrdered, IsValid, IsWired, NoLeak}
use mole_port.Forward.Rules.{accept_rule, add_rule, assign_name, store_rule}
use mole_port.Forward.Lifecycle.{delete_rule, stop_forward}
use mole_port.Forward.Invariant.Stopping.{
  active-stop_forward, rule_order-stop_forward, rules-stop_forward, stop_forward-IsWired,
  stop_forward-NoLeak, stop_forward-OnlyRules,
}
use mole_port.Forward.Invariant.Naming.{
  add_rule-IsOrdered, delete_rule-IsOrdered, rules-delete_rule,
}

-- Two managers with the same sessions.
pub record SameSessions (m n : Manager) : Type 0 where
  pub active : n.active ≡ m.active
  pub heap : n.heap ≡ m.heap
  pub next_ref : n.next_ref ≡ m.next_ref

pub SameSessions-IsWired : {m n : Manager} → SameSessions m n → IsWired m → IsWired n
SameSessions-IsWired e w = record {
  allocated = rw (e.active, e.next_ref) w.allocated;
  apart = rw (e.active) w.apart;
  named = rw (e.active, e.heap) w.named;
  listening = rw (e.active, e.heap) w.listening;
  resting = rw (e.active, e.heap) w.resting;
}

pub SameSessions-NoLeak : {m n : Manager} → SameSessions m n → NoLeak m → NoLeak n
SameSessions-NoLeak e h = rw (e.active, e.heap, e.next_ref) h

pub IsOrdered-same :
    {m n : Manager} → n.rules ≡ m.rules → n.rule_order ≡ m.rule_order → IsOrdered m → IsOrdered n
IsOrdered-same e f o = record {
  own_name = rw (e) o.own_name;
  listed = rw (e, f) o.listed;
  known = rw (e, f) o.known;
  once = rw (f) o.once;
}

store_rule_same : (x : Result ForwardRule) (m : Manager) → SameSessions m (store_rule x m).1
unfolding store_rule
store_rule_same (ok r) m = record { active = refl; heap = refl; next_ref = refl }
store_rule_same (err e) m = record { active = refl; heap = refl; next_ref = refl }

assign_name_same : (rule : ForwardRule) (m : Manager) → SameSessions m (assign_name rule m).1
unfolding assign_name
assign_name_same rule m = ground arith

-- Adding a rule touches no session.
pub add_rule_same : (rule : ForwardRule) (m : Manager) → SameSessions m (add_rule rule m).1
unfolding add_rule
add_rule_same rule m =
    let (named, m') = assign_name rule m in
    let a = assign_name_same rule m in
    let s = store_rule_same (accept_rule named m') m' in
    record {
      active = s.active ∙ a.active;
      heap = s.heap ∙ a.heap;
      next_ref = s.next_ref ∙ a.next_ref;
    }

store_rule-grows :
    (x : Result ForwardRule) (m : Manager) (a : String)
    → m.rules a ≢ none
    → (store_rule x m).1.rules a ≢ none
unfolding store_rule
store_rule-grows (ok r) m a h = ground arith
store_rule-grows (err e) m a h = h

assign_name-rules : (rule : ForwardRule) (m : Manager) → (assign_name rule m).1.rules ≡ m.rules
unfolding assign_name
assign_name-rules rule m = ground arith

pub add_rule-grows :
    (rule : ForwardRule) (m : Manager) (a : String)
    → m.rules a ≢ none
    → (add_rule rule m).1.rules a ≢ none
unfolding add_rule
add_rule-grows rule m a h =
    let (named, m') = assign_name rule m in
    store_rule-grows (accept_rule named m') m' a (rw (assign_name-rules rule m) h)

-- Adding a rule, accepted or refused, keeps the manager valid.
pub add_rule-IsValid : (rule : ForwardRule) {m : Manager} → IsValid m → IsValid (add_rule rule m).1
add_rule-IsValid rule {m} v = record {
  wired = SameSessions-IsWired (add_rule_same rule m) v.wired;
  no_leak = SameSessions-NoLeak (add_rule_same rule m) v.no_leak;
  only_rules =
      λ a h. add_rule-grows rule m a (v.only_rules a (rw (add_rule_same rule m).active at h));
  ordered = add_rule-IsOrdered rule v.ordered;
}

-- Stopping a forward, active or not, keeps the manager valid.
pub stop_forward-IsValid : (name : String) {m : Manager} → IsValid m → IsValid (stop_forward name m)
stop_forward-IsValid name {m} v = record {
  wired = stop_forward-IsWired name v.wired;
  no_leak = stop_forward-NoLeak name v.wired v.no_leak;
  only_rules = stop_forward-OnlyRules name m v.only_rules;
  ordered = IsOrdered-same (rules-stop_forward name m) (rule_order-stop_forward name m) v.ordered;
}

-- A deletion stops the forward first; of an unknown rule it changes nothing.
pub delete_rule-sessions :
    (name : String) (m : Manager)
    → (m.rules name ≡ none) × ((delete_rule name m).1 ≡ m)
      ⊎ SameSessions (stop_forward name m) (delete_rule name m).1
unfolding delete_rule stop_forward
delete_rule-sessions name m = elim (Option-cases (m.rules name)) [
  | inl absent ↦ inl (absent, ground (arith, absent))
  | inr (r, there) ↦ inr (record {
    active = ground (arith, there);
    heap = ground (arith, there);
    next_ref = ground (arith, there);
  })
]

pub delete_rule-IsWired : (name : String) {m : Manager} → IsWired m → IsWired (delete_rule name m).1
delete_rule-IsWired name {m} w = elim (delete_rule-sessions name m) [
  | inl (absent, e) ↦ rw (e) w
  | inr e ↦ SameSessions-IsWired e (stop_forward-IsWired name w)
]

-- Deleting a rule, found or not, keeps the manager valid.
pub delete_rule-IsValid : (name : String) {m : Manager} → IsValid m → IsValid (delete_rule name m).1
delete_rule-IsValid name {m} v = elim (delete_rule-sessions name m) [
  | inl (absent, e) ↦ rw (e) v
  | inr e ↦
      let stopped = stop_forward-IsValid name v in
      record {
        wired = SameSessions-IsWired e stopped.wired;
        no_leak = SameSessions-NoLeak e stopped.no_leak;
        only_rules = λ a h.
            let h' = rw (e.active, active-stop_forward name m a) at h in
            ground (arith, rules-delete_rule name m a, v.only_rules a);
        ordered = delete_rule-IsOrdered name v.ordered;
      }
]
