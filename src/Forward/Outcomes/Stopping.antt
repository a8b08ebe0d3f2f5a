-- ===== src/Forward/Outcomes/Stopping.antt =====
-- internal/core/forward/lifecycle.go: StopForward and StopAllForwards as their callers see them.
use mole_port.Base.{
  In, List, Option-cases, String, [], arith, eq_iff, eq_refl, inl, inr, none, refl, some, ℕ, ◌<◌,
  ◌∙◌, ◌∷◌, ◌≡◌, ◌≢◌,
}
use mole_port.Core.Models.{ForwardRule, stopped_session}
use mole_port.Core.Errors.{ok}
use mole_port.Forward.State.{Manager, open_listening}
use mole_port.Forward.Invariant.{IsValid}
use mole_port.Forward.Sessions.{get_session}
use mole_port.Forward.Lifecycle.{stop_all_forwards, stop_forward}
use mole_port.Forward.Invariant.Stopping.{
  active-stop_forward, next_ref-stop_forward, rules-stop_forward,
}
use mole_port.Forward.Operations.Loops.{stop_all_forwards-IsValid}

-- After StopForward the name is not active, its rule stands, its session is reported as stopped, and
-- the other names are as active as before.
pub get_session-stop_forward :
    (name : String) (m : Manager) (rule : ForwardRule)
    → m.rules name ≡ some rule
    → (get_session name (stop_forward name m) ≡ ok (stopped_session rule))
      × ((other_name : String)
          → name ≢ other_name
          → (stop_forward name m).active other_name ≡ m.active other_name)
get_session-stop_forward name m rule there = (
  unfold get_session in
      ground
        (arith, active-stop_forward name m name, eq_refl name, rules-stop_forward name m, there),
  λ a ne. ground (arith, active-stop_forward name m a, eq_iff name a),
)

active-stop_all_forwards :
    (names : List String) (m : Manager) (a : String)
    → (m.active a ≢ none → In a names)
    → (stop_all_forwards names m).active a ≡ none
unfolding stop_all_forwards
active-stop_all_forwards [] m a h = elim (Option-cases (m.active a)) [
  | inl e ↦ e
  | inr (p, e) ↦ absurd (h (λ f. cc (e, f)))
]
active-stop_all_forwards (name ∷ names) m a h =
    active-stop_all_forwards names (stop_forward name m) a (λ g.
      rest (λ e. g (rw (active-stop_forward name m a, e, eq_refl name) refl))
        (h (λ e. g (ground (arith, active-stop_forward name m a, e)))))
  where
    rest : (a ≢ name) → In a (name ∷ names) → In a names
    rest ne (inl e) = absurd (ne e)
    rest ne (inr i) = i

next_ref-stop_all_forwards :
    (names : List String) (m : Manager) → (stop_all_forwards names m).next_ref ≡ m.next_ref
unfolding stop_all_forwards
next_ref-stop_all_forwards [] m = refl
next_ref-stop_all_forwards (name ∷ names) m =
    next_ref-stop_all_forwards names (stop_forward name m) ∙ next_ref-stop_forward name m

-- If the loop of StopAllForwards visits every active name, in whatever order, then on a valid manager
-- nothing is active afterwards, and no listener that was ever opened is open any more.
pub stop_all_forwards-closes :
    (names : List String) {m : Manager}
    → IsValid m
    → ((a : String) → m.active a ≢ none → In a names)
    → ((a : String) → (stop_all_forwards names m).active a ≡ none)
      × ((p : ℕ) → p < m.next_ref → ((stop_all_forwards names m).heap p).listener ≢ open_listening)
stop_all_forwards-closes names {m} v visited =
    let v' = stop_all_forwards-IsValid names v in
    let gone : (a : String) → (stop_all_forwards names m).active a ≡ none =
      λ a. active-stop_all_forwards names m a (visited a) in
    (
      gone,
      λ p old opened.
          let found = v'.no_leak p (rw (next_ref-stop_all_forwards names m) old) opened in
          cc (found.1, gone ((stop_all_forwards names m).heap p).session.rule.name),
    )
