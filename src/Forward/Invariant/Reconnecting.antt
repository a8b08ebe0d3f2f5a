-- ===== src/Forward/Invariant/Reconnecting.antt =====
-- internal/core/forward/reconnect.go: marking, failing and restoring.
use mole_port.Base.{String, arith, eq_iff, eq_refl, refl, ℕ, ◌≡◌, ◌≢◌}
use mole_port.Core.Enums.{SessionStatus, active, session_reconnecting}
use mole_port.Core.Models.{ForwardSession}
use mole_port.Core.Events.{ForwardEvent}
use mole_port.Forward.State.{ActiveForward, Manager, closed_listening, open_listening}
use mole_port.Forward.Invariant.{IsWired, NoLeak}
use mole_port.Forward.Reconnect.{failed, marked, restore_commit, set_forward_error, visit}

-- A change that keeps the name of a session, does not open its listener, and leaves no session that
-- claims to be active.
pub record IsClosing (change : ActiveForward → ActiveForward) : Type 0 where
  pub keeps_rule : (af : ActiveForward) → (change af).session.rule ≡ af.session.rule
  pub keeps_starting : (af : ActiveForward) → (change af).starting ≡ af.starting
  pub inactive : (af : ActiveForward) → (change af).session.status ≢ active
  pub rests :
      (af : ActiveForward)
      → (change af).session.status ≡ session_reconnecting
      → (change af).listener ≡ closed_listening
  pub not_opened :
      (af : ActiveForward) → (change af).listener ≡ open_listening → af.listener ≡ open_listening

pub marked-IsClosing : IsClosing marked
marked-IsClosing = record {
  keeps_rule = λ af. refl;
  keeps_starting = λ af. refl;
  inactive = λ af. cc;
  rests = λ af h. refl;
  not_opened = λ af. cc;
}

pub failed-IsClosing : IsClosing failed
failed-IsClosing = record {
  keeps_rule = λ af. refl;
  keeps_starting = λ af. refl;
  inactive = λ af. cc;
  rests = λ af. cc;
  not_opened = λ af h. h;
}

module _ (host : String) (status : SessionStatus) (change : ActiveForward → ActiveForward)
    (event : ForwardSession → ForwardEvent) (c : IsClosing change) where
  pub visit-IsWired :
      (name : String) {m : Manager} → IsWired m → IsWired (visit host status change event name m).1
  unfolding visit
  visit-IsWired name {m} w = record {
    allocated = λ a p. ground (arith, w.allocated a p);
    apart = λ a b p. ground (arith, w.apart a b p);
    named =
        λ a p. ground (arith, w.named a p, c.keeps_rule (m.heap p), c.keeps_starting (m.heap p));
    listening = λ a p. ground (arith, w.listening a p, c.inactive (m.heap p));
    resting = λ a p. ground (arith, w.resting a p, c.rests (m.heap p));
  }

  pub visit-NoLeak :
      (name : String) (m : Manager) → NoLeak m → NoLeak (visit host status change event name m).1
  unfolding visit
  visit-NoLeak name m h p =
      ground
        (arith, h p, c.keeps_rule (m.heap p), c.keeps_starting (m.heap p), c.not_opened (m.heap p))

pub set_forward_error-IsWired :
    (p : ℕ) (text : String) {m : Manager} → IsWired m → IsWired (set_forward_error p text m)
unfolding set_forward_error
set_forward_error-IsWired q text w = record {
  allocated = λ a p. ground (arith, w.allocated a p);
  apart = λ a b p. ground (arith, w.apart a b p);
  named = λ a p. ground (arith, w.named a p);
  listening = λ a p. ground (arith, w.listening a p);
  resting = λ a p. ground (arith, w.resting a p);
}

pub set_forward_error-NoLeak :
    (p : ℕ) (text : String) (m : Manager) → NoLeak m → NoLeak (set_forward_error p text m)
unfolding set_forward_error
set_forward_error-NoLeak q text m h p = ground (arith, h p)

pub restore_commit-IsWired : (p : ℕ) {m : Manager} → IsWired m → IsWired (restore_commit p m).1
unfolding restore_commit
restore_commit-IsWired q {m} w = record {
  allocated = λ a p. ground (arith, w.allocated a p);
  apart = λ a b p. ground (
    arith,
    w.apart a b p,
    w.allocated a p,
    w.allocated b p,
    eq_iff (m.heap q).session.rule.name a,
    eq_iff (m.heap q).session.rule.name b,
  );
  named =
      λ a p. ground (arith, w.named a p, w.allocated a p, eq_iff (m.heap q).session.rule.name a);
  listening = λ a p. ground (arith, w.listening a p, w.allocated a p);
  resting = λ a p. ground (arith, w.resting a p, w.allocated a p);
}

-- A session that waits for its connection has a closed listener.
pub restore_commit-NoLeak :
    (p : ℕ) (m : Manager)
    → (m.heap p).listener ≢ open_listening
    → NoLeak m
    → NoLeak (restore_commit p m).1
unfolding restore_commit
restore_commit-NoLeak q m c h p = ground (
  arith,
  h p,
  c,
  eq_refl (m.heap q).session.rule.name,
  eq_iff (m.heap q).session.rule.name (m.heap p).session.rule.name,
)
