-- ===== src/Daemon/Starting.antt =====
-- internal/daemon/daemon_state.go: which forwards autoStartForwards starts.
use mole_port.Base.{
  Bool-cases, List, Option-cases, String, [], arith, eq_iff, inl, inr, none, not, refl, str_eq,
  true, ℕ, ◌||◌, ◌∙◌, ◌∷◌, ◌≡◌, ◌≢◌, ◌⊎◌,
}
use mole_port.Core.Errors.{Result, err, ok}
use mole_port.Core.Models.{ForwardRule}
use mole_port.Core.SshPort.{SshPort}
use mole_port.Forward.State.{Manager}
use mole_port.Forward.Sessions.{get_session}
use mole_port.Forward.Lifecycle.{
  start_cleanup, start_commit, start_connect, start_finish, start_forward, start_reserve,
  start_reserved, started,
}
use mole_port.Daemon.Startup.{
  already_active_session, auto_start_forwards, auto_start_one, start_one,
}

start_reserve-other :
    (name a : String) (m : Manager) → name ≢ a → (start_reserve name m).1.active a ≡ m.active a
unfolding start_reserve
start_reserve-other name a m ne = ground (arith, eq_iff name a)

start_cleanup-other :
    (name a : String) (m : Manager) → name ≢ a → (start_cleanup name m).active a ≡ m.active a
unfolding start_cleanup
start_cleanup-other name a m ne = ground (arith, eq_iff name a)

start_commit-other :
    (name a : String) (rule : ForwardRule) (now : ℕ) (m : Manager)
    → name ≢ a
    → (start_commit name rule now m).active a ≡ m.active a
unfolding start_commit
start_commit-other name a rule now m ne = ground (arith, eq_iff name a)

module _ (ssh : SshPort) where
  start_finish-other :
      (name a : String) (rule : ForwardRule) (now : ℕ) (m : Manager)
      (x : Result (Unit {0}) × ssh.State)
      → name ≢ a
      → (start_finish ssh name rule now m x).2.active a ≡ m.active a
  unfolding start_finish
  start_finish-other name a rule now m (err e, s) ne = start_cleanup-other name a m ne
  start_finish-other name a rule now m (ok u, s) ne = start_commit-other name a rule now m ne

  start_reserved-other :
      (name a : String) (now : ℕ) (s : ssh.State) (x : Result ForwardRule × Manager)
      → name ≢ a
      → (start_reserved ssh name now s x).2.active a ≡ x.1.active a
  unfolding start_reserved
  start_reserved-other name a now s (err e, m) ne = refl
  start_reserved-other name a now s (ok rule, m) ne =
      start_finish-other name a rule now m (start_connect ssh s rule) ne

  -- A start of one forward leaves the others.
  start_forward-other :
      (name a : String) (now : ℕ) (s : ssh.State) (m : Manager)
      → name ≢ a
      → (start_forward ssh name now s m).2.active a ≡ m.active a
  unfolding start_forward
  start_forward-other name a now s m ne =
      start_reserved-other name a now s (start_reserve name m) ne ∙ start_reserve-other name a m ne

-- A rule of the list that connects automatically has the name.
abbrev pub IsAutomatic : String → List ForwardRule → Type 0
IsAutomatic a [] = ⊥
IsAutomatic a (r ∷ rs) = ((r.name ≡ a) × (r.auto_connect ≡ true)) ⊎ IsAutomatic a rs

module _ (ssh : SshPort) (clock : String → ℕ) where
  auto_start_one-other :
      (r : ForwardRule) (a : String) (s : ssh.State) (m : Manager)
      → (auto_start_one ssh clock r (s, m)).1.active a ≢ m.active a
      → (r.name ≡ a) × (r.auto_connect ≡ true)
  unfolding auto_start_one start_one
  auto_start_one-other r a s m moved =
      elim (Bool-cases (not r.auto_connect || already_active_session (get_session r.name m))) [
        | inl out ↦ elim (moved (rw (auto_start_one, out) refl)) [ ]
        | inr on ↦ elim (Bool-cases (str_eq r.name a)) [
          | inl same ↦ ((eq_iff r.name a).0 same, ground (arith, on))
          | inr differ ↦
              elim (moved (
                rw (auto_start_one, on)
                  (start_forward-other ssh r.name a (clock r.name) s m
                    (λ e. ground (arith, eq_iff r.name a, differ, e))))) [ ]
        ]
      ]

  -- autoStartForwards starts only what it is to start: a forward that is active behind it and was not before
  -- has the name of a rule of the configuration with `auto_connect`.
  pub auto_start_forwards-IsAutomatic :
      (rules : List ForwardRule) (s : ssh.State) (m : Manager) (a : String)
      → m.active a ≡ none
      → (auto_start_forwards ssh clock rules (s, m)).1.active a ≢ none
      → IsAutomatic a rules
  unfolding auto_start_forwards
  auto_start_forwards-IsAutomatic [] s m a out now = elim (now out) [ ]
  auto_start_forwards-IsAutomatic (r ∷ rs) s m a out now =
      let x = auto_start_one ssh clock r (s, m) in
      elim (Option-cases (x.1.active a)) [
        | inl still ↦ inr (auto_start_forwards-IsAutomatic rs x.0 x.1 a still now)
        | inr (p, started) ↦
            inl (auto_start_one-other r a s m (λ e. ground (arith, started, e, out)))
      ]
