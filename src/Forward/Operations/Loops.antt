-- ===== src/Forward/Operations/Loops.antt =====
-- internal/core/forward/lifecycle.go and reconnect.go: the operations that visit many sessions, on a
-- valid manager and for any order of their `range` loops.
use mole_port.Base.{List, String, [], arith, refl, ◌∙◌, ◌∷◌, ◌≡◌}
use mole_port.Core.Enums.{SessionStatus, active, session_reconnecting}
use mole_port.Core.Models.{ForwardSession}
use mole_port.Core.Events.{ForwardEvent}
use mole_port.Forward.State.{ActiveForward, Manager, announce_all}
use mole_port.Forward.Invariant.{IsOrdered, IsValid, IsWired, NoLeak}
use mole_port.Forward.Lifecycle.{close, stop_all_forwards}
use mole_port.Forward.Reconnect.{
  fail_event, fail_reconnecting, failed, mark_event, mark_reconnecting, marked, visit, visit_all,
}
use mole_port.Forward.Invariant.Reconnecting.{
  IsClosing, failed-IsClosing, marked-IsClosing, visit-IsWired, visit-NoLeak,
}
use mole_port.Forward.Operations.Rules.{
  IsOrdered-same, SameSessions, SameSessions-IsWired, SameSessions-NoLeak, stop_forward-IsValid,
}

-- Stopping all keeps the manager valid.
pub stop_all_forwards-IsValid :
    (names : List String) {m : Manager} → IsValid m → IsValid (stop_all_forwards names m)
unfolding stop_all_forwards
stop_all_forwards-IsValid [] v = v
stop_all_forwards-IsValid (name ∷ names) v =
    stop_all_forwards-IsValid names (stop_forward-IsValid name v)

-- Managers that differ in their events, flags and counters alone.
pub SameState-IsValid :
    {m n : Manager}
    → SameSessions m n
    → n.rules ≡ m.rules
    → n.rule_order ≡ m.rule_order
    → IsValid m
    → IsValid n
SameState-IsValid e r o v = record {
  wired = SameSessions-IsWired e v.wired;
  no_leak = SameSessions-NoLeak e v.no_leak;
  only_rules = rw (e.active, r) v.only_rules;
  ordered = IsOrdered-same r o v.ordered;
}

pub close-IsValid : (names : List String) {m : Manager} → IsValid m → IsValid (close names m)
unfolding close
close-IsValid names v =
    SameState-IsValid (record { active = refl; heap = refl; next_ref = refl }) refl refl
      (stop_all_forwards-IsValid names v)

announce_all-IsValid :
    (es : List ForwardEvent) {m : Manager} → IsValid m → IsValid (announce_all es m)
unfolding announce_all
announce_all-IsValid es v =
    SameState-IsValid (record { active = refl; heap = refl; next_ref = refl }) refl refl v

module _ (host : String) (status : SessionStatus) (change : ActiveForward → ActiveForward)
    (event : ForwardSession → ForwardEvent) where
  visit_same :
      (name : String) (m : Manager)
      → ((visit host status change event name m).1.rules ≡ m.rules)
        × ((visit host status change event name m).1.rule_order ≡ m.rule_order)
        × ((visit host status change event name m).1.active ≡ m.active)
  unfolding visit
  visit_same name m = ground arith

  visit_all_same :
      (names : List String) (m : Manager)
      → ((visit_all host status change event names m).1.rules ≡ m.rules)
        × ((visit_all host status change event names m).1.rule_order ≡ m.rule_order)
        × ((visit_all host status change event names m).1.active ≡ m.active)
  unfolding visit_all
  visit_all_same [] m = (refl, refl, refl)
  visit_all_same (name ∷ names) m =
      let e = visit_same name m in
      let f = visit_all_same names (visit host status change event name m).1 in
      (f.0 ∙ e.0, f.1 ∙ e.1, f.2 ∙ e.2)

  module _ (c : IsClosing change) where
    visit_all-IsWired :
        (names : List String) {m : Manager}
        → IsWired m
        → IsWired (visit_all host status change event names m).1
    unfolding visit_all
    visit_all-IsWired [] w = w
    visit_all-IsWired (name ∷ names) w =
        visit_all-IsWired names (visit-IsWired host status change event c name w)

    visit_all-NoLeak :
        (names : List String) (m : Manager)
        → NoLeak m
        → NoLeak (visit_all host status change event names m).1
    unfolding visit_all
    visit_all-NoLeak [] m h = h
    visit_all-NoLeak (name ∷ names) m h =
        visit_all-NoLeak names (visit host status change event name m).1
          (visit-NoLeak host status change event c name m h)

    visit_all-IsValid :
        (names : List String) {m : Manager}
        → IsValid m
        → IsValid (visit_all host status change event names m).1
    visit_all-IsValid names {m} v =
        let e = visit_all_same names m in
        record {
          wired = visit_all-IsWired names v.wired;
          no_leak = visit_all-NoLeak names m v.no_leak;
          only_rules = rw (e.0, e.2) v.only_rules;
          ordered = IsOrdered-same e.0 e.1 v.ordered;
        }

module _ (host : String) (names : List String) {m : Manager} where
  pub mark_reconnecting-IsWired : IsWired m → IsWired (mark_reconnecting host names m)
  unfolding mark_reconnecting
  mark_reconnecting-IsWired w =
      SameSessions-IsWired (record { active = refl; heap = refl; next_ref = refl })
        (visit_all-IsWired host active marked mark_event marked-IsClosing names w)

  pub mark_reconnecting-IsOrdered : IsOrdered m → IsOrdered (mark_reconnecting host names m)
  unfolding mark_reconnecting
  mark_reconnecting-IsOrdered o =
      let e = visit_all_same host active marked mark_event names m in IsOrdered-same e.0 e.1 o

  pub fail_reconnecting-IsWired : IsWired m → IsWired (fail_reconnecting host names m)
  unfolding fail_reconnecting
  fail_reconnecting-IsWired w =
      SameSessions-IsWired (record { active = refl; heap = refl; next_ref = refl })
        (visit_all-IsWired host session_reconnecting failed fail_event failed-IsClosing names w)

  pub fail_reconnecting-IsOrdered : IsOrdered m → IsOrdered (fail_reconnecting host names m)
  unfolding fail_reconnecting
  fail_reconnecting-IsOrdered o =
      let e = visit_all_same host session_reconnecting failed fail_event names m in
      IsOrdered-same e.0 e.1 o

  -- Marking the sessions of a host keeps the manager valid.
  pub mark_reconnecting-IsValid : IsValid m → IsValid (mark_reconnecting host names m)
  unfolding mark_reconnecting
  mark_reconnecting-IsValid v =
      announce_all-IsValid (visit_all host active marked mark_event names m).0
        (visit_all-IsValid host active marked mark_event marked-IsClosing names v)

  -- Failing the sessions of a host keeps the manager valid.
  pub fail_reconnecting-IsValid : IsValid m → IsValid (fail_reconnecting host names m)
  unfolding fail_reconnecting
  fail_reconnecting-IsValid v =
      announce_all-IsValid (visit_all host session_reconnecting failed fail_event names m).0
        (visit_all-IsValid host session_reconnecting failed fail_event failed-IsClosing names v)
