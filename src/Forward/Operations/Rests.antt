-- ===== src/Forward/Operations/Rests.antt =====
-- internal/core/forward: a session that was taken down stays down, whatever section runs next. This
-- is what RestoreForwards relies on when it keeps pointers while the lock is free.
use mole_port.Base.{
  Bool-cases, In, List, Option-cases, String, [], arith, inl, inr, refl, some, true, ℕ, ◌∷◌, ◌≡◌,
  ◌⊎◌,
}
use mole_port.Core.Enums.{SessionStatus, active, session_reconnecting}
use mole_port.Core.Models.{ForwardRule, ForwardSession}
use mole_port.Core.Events.{ForwardEvent}
use mole_port.Forward.State.{ActiveForward, Manager, closed_listening}
use mole_port.Forward.Invariant.{IsWired, Rests}
use mole_port.Forward.Rules.{add_rule}
use mole_port.Forward.Lifecycle.{
  delete_rule, start_cleanup, start_commit, start_reserve, stop_forward,
}
use mole_port.Forward.Reconnect.{
  concerns, fail_event, fail_reconnecting, failed, mark_event, mark_reconnecting, marked,
  restore_commit, set_forward_error, visit, visit_all, waiting,
}
use mole_port.Forward.Operations.Rules.{SameSessions, add_rule_same, delete_rule-sessions}
use mole_port.Forward.Invariant.Reconnecting.{IsClosing, failed-IsClosing, marked-IsClosing}

pub SameSessions-Rests : {m n : Manager} (p : ℕ) → SameSessions m n → Rests m p → Rests n p
SameSessions-Rests p e r = record {
  old = rw (e.next_ref) r.old;
  inactive = rw (e.heap) r.inactive;
  quiet = rw (e.heap) r.quiet;
  settled = rw (e.heap) r.settled;
}

module _ (p : ℕ) {m : Manager} (r : Rests m p) where
  pub start_reserve-Rests : (name : String) → Rests (start_reserve name m).1 p
  unfolding start_reserve
  start_reserve-Rests name = ground (arith, r.inactive)

  pub start_cleanup-Rests : (name : String) → Rests (start_cleanup name m) p
  unfolding start_cleanup
  start_cleanup-Rests name = ground (arith, r.inactive)

  pub start_commit-Rests :
      (name : String) (rule : ForwardRule) (now : ℕ) → Rests (start_commit name rule now m) p
  unfolding start_commit
  start_commit-Rests name rule now = ground (arith, r.inactive)

  pub stop_forward-Rests : (name : String) → Rests (stop_forward name m) p
  unfolding stop_forward
  stop_forward-Rests name = ground (arith, r.inactive)

  pub set_forward_error-Rests : (q : ℕ) (text : String) → Rests (set_forward_error q text m) p
  unfolding set_forward_error
  set_forward_error-Rests q text = ground (arith, r.inactive)

  pub restore_commit-Rests : (q : ℕ) → Rests (restore_commit q m).1 p
  unfolding restore_commit
  restore_commit-Rests q = ground (arith, r.inactive)

  pub delete_rule-Rests : (name : String) → Rests (delete_rule name m).1 p
  delete_rule-Rests name = elim (delete_rule-sessions name m) [
    | inl (absent, e) ↦ rw (e) r
    | inr e ↦ SameSessions-Rests p e (stop_forward-Rests name)
  ]

  pub add_rule-Rests : (rule : ForwardRule) → Rests (add_rule rule m).1 p
  add_rule-Rests rule = SameSessions-Rests p (add_rule_same rule m) r

-- Of a change that takes sessions down, too.
pub record IsLowering (change : ActiveForward → ActiveForward) : Type 0 where
  pub closes :
      (af : ActiveForward)
      → af.listener ≡ closed_listening
      → (change af).listener ≡ closed_listening

module _ (host : String) (status : SessionStatus) (change : ActiveForward → ActiveForward)
    (event : ForwardSession → ForwardEvent) (c : IsClosing change) (l : IsLowering change) where
  visit-Rests :
      (p : ℕ) (name : String) {m : Manager}
      → Rests m p
      → Rests (visit host status change event name m).1 p
  unfolding visit
  visit-Rests p name {m} r =
      ground
        (arith, r.inactive, c.inactive (m.heap p), c.keeps_starting (m.heap p), l.closes (m.heap p))

  visit_all-Rests :
      (p : ℕ) (names : List String) {m : Manager}
      → Rests m p
      → Rests (visit_all host status change event names m).1 p
  unfolding visit_all
  visit_all-Rests p [] r = r
  visit_all-Rests p (name ∷ names) r = visit_all-Rests p names (visit-Rests p name r)

pub mark_reconnecting-Rests :
    (p : ℕ) (host : String) (names : List String) {m : Manager}
    → Rests m p
    → Rests (mark_reconnecting host names m) p
unfolding mark_reconnecting
mark_reconnecting-Rests p host names r =
    let v =
      visit_all-Rests host active marked mark_event marked-IsClosing
        (record { closes = λ af h. refl }) p names r in
    record { old = v.old; inactive = v.inactive; quiet = v.quiet; settled = v.settled }

pub fail_reconnecting-Rests :
    (p : ℕ) (host : String) (names : List String) {m : Manager}
    → Rests m p
    → Rests (fail_reconnecting host names m) p
unfolding fail_reconnecting
fail_reconnecting-Rests p host names r =
    let v =
      visit_all-Rests host session_reconnecting failed fail_event failed-IsClosing
        (record { closes = λ af h. h }) p names r in
    record { old = v.old; inactive = v.inactive; quiet = v.quiet; settled = v.settled }

-- What the loop of RestoreForwards does with one name.
pub waiting-cons :
    (host name : String) (names : List String) (m : Manager)
    → (waiting host (name ∷ names) m ≡ waiting host names m)
      ⊎ ((p : ℕ) × (m.active name ≡ some p)
          × (concerns host session_reconnecting (m.heap p) ≡ true)
          × (waiting host (name ∷ names) m ≡ p ∷ waiting host names m))
unfolding waiting
waiting-cons host name names m = elim (Option-cases (m.active name)) [
  | inl e ↦ inl (ground (arith, e))
  | inr (p, e) ↦ elim (Bool-cases (concerns host session_reconnecting (m.heap p))) [
    | inl t ↦ inr (p, e, t, ground (arith, e, t))
    | inr f ↦ inl (ground (arith, e, f))
  ]
]

concerns-Rests :
    (host a : String) {m : Manager} (p : ℕ)
    → IsWired m
    → m.active a ≡ some p
    → concerns host session_reconnecting (m.heap p) ≡ true
    → Rests m p
concerns-Rests host a p w e t = ground (arith, w.allocated a p, w.resting a p)

-- The sessions that RestoreForwards collects are down.
pub waiting-Rests :
    (host : String) (names : List String) {m : Manager}
    → IsWired m
    → (p : ℕ) → In p (waiting host names m)
    → Rests m p
waiting-Rests host [] w p h = unfold waiting in absurd h
waiting-Rests host (name ∷ names) {m} w p h = elim (waiting-cons host name names m) [
  | inl e ↦ waiting-Rests host names w p (rw (e) at h)
  | inr (q, e, t, f) ↦
      first (rw (f) at h) (concerns-Rests host name q w e t) (waiting-Rests host names w p)
]
  where
    first :
        {q : ℕ}
        → In p (q ∷ waiting host names m)
        → Rests m q
        → (In p (waiting host names m) → Rests m p)
        → Rests m p
    first (inl e) r rest = rw (e) r
    first (inr i) r rest = rest i
