-- ===== src/Forward/Invariant/Starting.antt =====
-- internal/core/forward/lifecycle.go: the locked sections of a start.
use mole_port.Base.{String, arith, eq_iff, some, true, ℕ, ◌≡◌}
use mole_port.Core.Models.{ForwardRule}
use mole_port.Forward.State.{Manager}
use mole_port.Forward.Invariant.{IsWired, NoLeak}
use mole_port.Forward.Lifecycle.{start_cleanup, start_commit, start_reserve}

pub start_reserve-IsWired :
    (name : String) {m : Manager} → IsWired m → IsWired (start_reserve name m).1
unfolding start_reserve
start_reserve-IsWired name {m} w = record {
  allocated = λ a p. ground (arith, w.allocated a p);
  apart = λ a b p.
      ground (arith, w.apart a b p, w.allocated a p, w.allocated b p, eq_iff name a, eq_iff name b);
  named = λ a p. ground (arith, w.named a p, w.allocated a p);
  listening = λ a p. ground (arith, w.listening a p, w.allocated a p);
  resting = λ a p. ground (arith, w.resting a p, w.allocated a p);
}

pub start_reserve-NoLeak :
    (name : String) {m : Manager} → IsWired m → NoLeak m → NoLeak (start_reserve name m).1
unfolding start_reserve
start_reserve-NoLeak name {m} w h p = ground (arith, h p, eq_iff name (m.heap p).session.rule.name)

pub start_cleanup-IsWired :
    (name : String) {m : Manager} → IsWired m → IsWired (start_cleanup name m)
unfolding start_cleanup
start_cleanup-IsWired name {m} w = record {
  allocated = λ a p. ground (arith, w.allocated a p);
  apart = λ a b p. ground (arith, w.apart a b p);
  named = λ a p. ground (arith, w.named a p);
  listening = λ a p. ground (arith, w.listening a p);
  resting = λ a p. ground (arith, w.resting a p);
}

pub start_cleanup-NoLeak :
    (name : String) {m : Manager} → IsWired m → NoLeak m → NoLeak (start_cleanup name m)
unfolding start_cleanup
start_cleanup-NoLeak name {m} w h p = ground (arith, h p, eq_iff name (m.heap p).session.rule.name)

pub start_commit-IsWired :
    (name : String) (rule : ForwardRule) (now : ℕ) {m : Manager}
    → rule.name ≡ name
    → IsWired m
    → IsWired (start_commit name rule now m)
unfolding start_commit
start_commit-IsWired name rule now {m} e w = record {
  allocated = λ a p. ground (arith, w.allocated a p);
  apart = λ a b p.
      ground (arith, w.apart a b p, w.allocated a p, w.allocated b p, eq_iff name a, eq_iff name b);
  named = λ a p. ground (arith, w.named a p, w.allocated a p, eq_iff name a);
  listening = λ a p. ground (arith, w.listening a p, w.allocated a p);
  resting = λ a p. ground (arith, w.resting a p, w.allocated a p);
}

-- The entry that a commit replaces must hold no open listener.
pub start_commit-NoLeak :
    (name : String) (rule : ForwardRule) (now : ℕ) (m : Manager)
    → rule.name ≡ name
    → ((p : ℕ) → m.active name ≡ some p → (m.heap p).starting ≡ true)
    → NoLeak m
    → NoLeak (start_commit name rule now m)
unfolding start_commit
start_commit-NoLeak name rule now m e fresh h p =
    ground (arith, h p, fresh p, eq_iff name (m.heap p).session.rule.name, eq_iff name rule.name)
