-- ===== src/Forward/Invariant/Stopping.antt =====
-- internal/core/forward/lifecycle.go: stopping a forward.
use mole_port.Base.{String, arith, eq_iff, if◌then◌else◌, none, str_eq, ◌≡◌}
use mole_port.Forward.State.{Manager}
use mole_port.Forward.Invariant.{IsWired, NoLeak, OnlyRules}
use mole_port.Forward.Lifecycle.{stop_forward}

pub stop_forward-IsWired : (name : String) {m : Manager} → IsWired m → IsWired (stop_forward name m)
unfolding stop_forward
stop_forward-IsWired name w = record {
  allocated = λ a p. ground (arith, w.allocated a p);
  apart = λ a b p. ground (arith, w.apart a b p);
  named = λ a p. ground (arith, w.named a p);
  listening = λ a p. ground (arith, w.listening a p);
  resting = λ a p. ground (arith, w.resting a p);
}

pub stop_forward-NoLeak :
    (name : String) {m : Manager} → IsWired m → NoLeak m → NoLeak (stop_forward name m)
unfolding stop_forward
stop_forward-NoLeak name {m} w h p =
    ground (arith, h p, w.named name p, eq_iff name (m.heap p).session.rule.name)

pub stop_forward-OnlyRules :
    (name : String) (m : Manager) → OnlyRules m → OnlyRules (stop_forward name m)
unfolding stop_forward
stop_forward-OnlyRules name m h a = ground (arith, h a)

-- Stopping leaves the rules alone, and what is active under the other names.
pub rules-stop_forward : (name : String) (m : Manager) → (stop_forward name m).rules ≡ m.rules
unfolding stop_forward
rules-stop_forward name m = ground arith

pub rule_order-stop_forward :
    (name : String) (m : Manager) → (stop_forward name m).rule_order ≡ m.rule_order
unfolding stop_forward
rule_order-stop_forward name m = ground arith

pub active-stop_forward :
    (name : String) (m : Manager) (a : String)
    → (stop_forward name m).active a ≡ (if str_eq name a then none else m.active a)
unfolding stop_forward
active-stop_forward name m a = ground (arith, eq_iff name a)

pub next_ref-stop_forward :
    (name : String) (m : Manager) → (stop_forward name m).next_ref ≡ m.next_ref
unfolding stop_forward
next_ref-stop_forward name m = ground arith
