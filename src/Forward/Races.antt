-- ===== src/Forward/Races.antt =====
-- internal/core/forward: what can go wrong between the locked sections of a start, and when a name is
-- generated after a restart.
use mole_port.Base.{
  String, arith, eq_iff, eq_refl, itoa, none, refl, some, ℕ, ◌+◌, ◌<>◌, ◌<◌, ◌≡◌, ◌≢◌,
}
use mole_port.Core.Models.{ForwardRule}
use mole_port.Core.Errors.{already_exists, err, ok}
use mole_port.Forward.State.{Manager, open_listening}
use mole_port.Forward.Rules.{accept_rule, add_rule, assign_name}
use mole_port.Forward.Sessions.{get_session}
use mole_port.Forward.Lifecycle.{delete_rule, start_commit, start_reserve, started, stop_forward}
use mole_port.Forward.Invariant.Naming.{rules-delete_rule}
use mole_port.Forward.Outcomes.Starting.{get_session-start_commit}
use mole_port.Forward.Invariant.{IsValid}

-- The sections of a start with the deletion of its rule between them.
abbrev pub start_around_delete : String → ForwardRule → ℕ → Manager → Manager
start_around_delete name rule now m =
    start_commit name rule now (delete_rule name (start_reserve name m).1).1

-- If a rule is deleted while its start is between its locked sections, the start still puts the
-- forward into the map: the rule is gone, and its name is reported as an active session.
pub start_around_delete_orphan :
    (name : String) (rule : ForwardRule) (now : ℕ) (m : Manager)
    → m.rules name ≡ some rule
    → m.active name ≡ none
    → ((start_around_delete name rule now m).rules name ≡ none)
      × (get_session name (start_around_delete name rule now m)
          ≡ ok (started name rule now).session)
start_around_delete_orphan name rule now m there free = (
  unfold start_commit in
      ground (arith, rules-delete_rule name (start_reserve name m).1 name, eq_refl name),
  get_session-start_commit name rule now (delete_rule name (start_reserve name m).1).1,
)

-- Two starts of one rule, the second made possible by a stop while the first was between its locked
-- sections; the second comes back before the first.
abbrev pub start_twice : String → ForwardRule → ℕ → ℕ → Manager → Manager
start_twice name rule now later m =
    start_commit name rule later (
      start_commit name rule now
        (start_reserve name (stop_forward name (start_reserve name m).1)).1)

-- Then, from a state in which the map of active forwards and the heap agree, a session of the heap with an open
-- listener is active under no name: neither a stop nor the listing of sessions reaches it.
pub start_twice_leak :
    (name : String) (rule : ForwardRule) (now later : ℕ) (m : Manager)
    → IsValid m
    → m.rules name ≡ some rule
    → m.active name ≡ none
    → ((start_reserve name (stop_forward name (start_reserve name m).1)).0 ≡ ok rule)
      × ((p : ℕ) × (p < (start_twice name rule now later m).next_ref)
          × (((start_twice name rule now later m).heap p).listener ≡ open_listening)
          × ((a : String) → (start_twice name rule now later m).active a ≢ some p))
unfolding start_commit start_reserve stop_forward
start_twice_leak name rule now later m v there free = (
  ground (arith, eq_refl name, there, free),
  (
    m.next_ref + 2,
    ground (arith, eq_refl name, there, free),
    ground (arith, eq_refl name, there, free),
    λ a h.
        ground (
          arith,
          eq_refl name,
          eq_iff name a,
          there,
          free,
          v.wired.allocated a (m.next_ref + 2),
          h,
        ),
  ),
)

assign_name_empty :
    (rule : ForwardRule) (m : Manager)
    → rule.name ≡ ""
    → assign_name rule m ≡ (
      record rule { name = "forward-" <> itoa (m.next_id + 1) },
      record m { next_id = m.next_id + 1 },
    )
unfolding assign_name
assign_name_empty rule m e = rw ((eq_iff rule.name "").1 e) refl

accept_rule_taken :
    (rule old : ForwardRule) (m : Manager)
    → m.rules rule.name ≡ some old
    → accept_rule rule m ≡ err (already_exists "rule" rule.name)
unfolding accept_rule
accept_rule_taken rule old m taken = ground (arith, taken)

-- A rule offered without a name is refused where the generated name is taken.
pub add_rule_collides :
    (rule old : ForwardRule) (m : Manager)
    → rule.name ≡ ""
    → m.rules ("forward-" <> itoa (m.next_id + 1)) ≡ some old
    → (add_rule rule m).0 ≡ err (already_exists "rule" ("forward-" <> itoa (m.next_id + 1)))
unfolding add_rule
add_rule_collides rule old m e taken =
    rw
      (
        assign_name_empty rule m e,
        accept_rule_taken (record rule { name = "forward-" <> itoa (m.next_id + 1) }) old
            (record m { next_id = m.next_id + 1 }) taken,
      )
      refl
