-- ===== src/Forward/RoundTrip.antt =====
-- internal/core/forward/reconnect.go: a connection is lost and comes back.
pub mod Restored
use mole_port.Base.{
  Bool-cases, In, List, String, [], arith, eq_iff, eq_refl, false, inl, inr, some, str_eq, sym,
  true, ℕ, ◌<◌, ◌∷◌, ◌≡◌, ◌≢◌,
}
use mole_port.Core.Enums.{SessionStatus, active, session_reconnecting}
use mole_port.Core.Models.{ForwardSession}
use mole_port.Core.Events.{ForwardEvent}
use mole_port.Forward.State.{ActiveForward, Manager, open_listening}
use mole_port.Forward.Invariant.{IsWired, Rests}
use mole_port.Forward.Reconnect.{
  concerns, mark_event, mark_reconnecting, marked, restore_commit, restored, set_forward_error,
  still_waiting, visit, visit_all, waiting,
}
use mole_port.Forward.Operations.Rests.{waiting-cons}
use mole_port.Forward.Invariant.Reconnecting.{IsClosing, marked-IsClosing, visit-IsWired}

-- The pointer `p` is active under the name `a` and leads to `af`.
pub record Holds (a : String) (p : ℕ) (af : ActiveForward) (m : Manager) : Type 0 where
  pub held : m.active a ≡ some p
  pub leads : m.heap p ≡ af

module _ (host : String) (status : SessionStatus) (change : ActiveForward → ActiveForward)
    (event : ForwardSession → ForwardEvent) (a : String) (p : ℕ) (af : ActiveForward) where
  visit_unconcerned :
      (name : String) {m : Manager}
      → concerns host status af ≡ false
      → Holds a p af m
      → Holds a p af (visit host status change event name m).1
  unfolding visit
  visit_unconcerned name f h = ground arith

  visit_other :
      (name : String) {m : Manager}
      → IsWired m
      → name ≢ a
      → Holds a p af m
      → Holds a p af (visit host status change event name m).1
  unfolding visit
  visit_other name {m} w ne h = ground (arith, w.apart name a p)

  visit_self :
      {m : Manager}
      → concerns host status af ≡ true
      → Holds a p af m
      → Holds a p (change af) (visit host status change event a m).1
  unfolding visit
  visit_self t h = ground arith

  visit_all_unconcerned :
      (names : List String) {m : Manager}
      → concerns host status af ≡ false
      → Holds a p af m
      → Holds a p af (visit_all host status change event names m).1
  unfolding visit_all
  visit_all_unconcerned [] f h = h
  visit_all_unconcerned (name ∷ names) f h =
      visit_all_unconcerned names f (visit_unconcerned name f h)

module _ (host : String) (status : SessionStatus) (change : ActiveForward → ActiveForward)
    (event : ForwardSession → ForwardEvent) (c : IsClosing change) (a : String) (p : ℕ)
    (af : ActiveForward) (t : concerns host status af ≡ true)
    (f : concerns host status (change af) ≡ false) where
  -- A loop that comes by the name changes the session once.
  visit_all_hit :
      (names : List String) {m : Manager}
      → IsWired m
      → In a names
      → Holds a p af m
      → Holds a p (change af) (visit_all host status change event names m).1
  unfolding visit_all
  visit_all_hit [] w i h = absurd i
  visit_all_hit (name ∷ names) {m} w i h = elim (Bool-cases (str_eq name a)) [
    | inl same ↦
        let e : name ≡ a = (eq_iff name a).0 same in
        visit_all_unconcerned host status change event a p (change af) names f
          (rw (e) (visit_self host status change event a p af t h))
    | inr differ ↦
        visit_all_hit names (visit-IsWired host status change event c name w) (later i differ) (
          visit_other host status change event a p af name w (λ e. cc (differ, (eq_iff name a).1 e))
            h)
  ]
    where
      later : In a (name ∷ names) → str_eq name a ≡ false → In a names
      later (inl e) d = absurd (cc (d, (eq_iff name a).1 (sym e)))
      later (inr j) d = j

pub mark_reconnecting-Holds :
    (host a : String) (p : ℕ) (af : ActiveForward) (names : List String) {m : Manager}
    → IsWired m
    → In a names
    → concerns host active af ≡ true
    → Holds a p af m
    → Holds a p (marked af) (mark_reconnecting host names m)
unfolding mark_reconnecting
mark_reconnecting-Holds host a p af names w i t h =
    let v =
      visit_all_hit host active marked mark_event marked-IsClosing a p af t (ground arith) names w i
        h in
    record { held = v.held; leads = v.leads }

-- The loop of RestoreForwards collects a session that waits.
In-waiting :
    (host a : String) (p : ℕ) (af : ActiveForward) (names : List String) {m : Manager}
    → In a names
    → concerns host session_reconnecting af ≡ true
    → Holds a p af m
    → In p (waiting host names m)
unfolding waiting
In-waiting host a p af [] i t h = absurd i
In-waiting host a p af (name ∷ names) (inl e) t h = ground (arith, e)
In-waiting host a p af (name ∷ names) {m} (inr i) t h = elim (waiting-cons host name names m) [
  | inl e ↦ rw (e) (In-waiting host a p af names i t h)
  | inr (q, x, y, e) ↦ rw (e) (inr (In-waiting host a p af names i t h))
]

-- The forward under the name `a` is back, with the session `x`.
pub record IsBack (a : String) (x : ForwardSession) (m : Manager) : Type 0 where
  pub ref : ℕ
  pub held : m.active a ≡ some ref
  pub session : (m.heap ref).session ≡ x
  pub status : (m.heap ref).session.status ≡ active
  pub running : (m.heap ref).starting ≡ false
  pub listening : (m.heap ref).listener ≡ open_listening
  pub counters : ((m.heap ref).sent ≡ 0) × ((m.heap ref).received ≡ 0)
  pub old : ref < m.next_ref

set_forward_error-Holds :
    (a : String) (p q : ℕ) (af : ActiveForward) (text : String) {m : Manager}
    → q ≢ p
    → Holds a p af m
    → Holds a p af (set_forward_error q text m)
unfolding set_forward_error
set_forward_error-Holds a p q af text ne h = ground arith

restore_commit-Holds :
    (a : String) (p q : ℕ) (af : ActiveForward) {m : Manager}
    → q ≢ p
    → p < m.next_ref
    → Holds a p af m
    → Holds a p af (restore_commit q m).1
unfolding restore_commit
restore_commit-Holds a p q af {m} ne lt h = ground (arith, eq_iff (m.heap q).session.rule.name a)

set_forward_error-IsBack :
    (a : String) (x : ForwardSession) (q : ℕ) (text : String) {m : Manager}
    → Rests m q
    → IsBack a x m
    → IsBack a x (set_forward_error q text m)
unfolding set_forward_error
set_forward_error-IsBack a x q text r b = record {
  ref = b.ref;
  held = b.held;
  session = ground (arith, r.inactive);
  status = ground (arith, r.inactive);
  running = ground (arith, r.inactive);
  listening = ground (arith, r.inactive);
  counters = ground (arith, r.inactive);
  old = b.old;
}

restore_commit-IsBack :
    (a : String) (x : ForwardSession) (q : ℕ) {m : Manager}
    → Rests m q
    → IsBack a x m
    → IsBack a x (restore_commit q m).1
unfolding restore_commit
restore_commit-IsBack a x q {m} r b = record {
  ref = b.ref;
  held = ground (arith, r.inactive, eq_iff (m.heap q).session.rule.name a);
  session = ground arith;
  status = ground arith;
  running = ground arith;
  listening = ground arith;
  counters = ground arith;
  old = ground arith;
}

restore_commit_regains :
    (a : String) (p : ℕ) (af : ActiveForward) {m : Manager}
    → af.session.rule.name ≡ a
    → af.session.status ≡ session_reconnecting
    → Holds a p af m
    → IsBack a (restored af).session (restore_commit p m).1
unfolding restore_commit
restore_commit_regains a p af {m} n st h =
    let back : still_waiting p m ≡ true = unfold still_waiting in ground (arith, h.held, h.leads) in
    rw (back) (record {
      ref = m.next_ref;
      held = ground (arith, h.leads, eq_refl a);
      session = ground (arith, h.leads);
      status = ground arith;
      running = ground arith;
      listening = ground arith;
      counters = ground arith;
      old = omega arith;
    })
