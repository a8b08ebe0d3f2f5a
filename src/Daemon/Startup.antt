-- ===== src/Daemon/Startup.antt =====
-- internal/daemon/daemon_state.go: the forwards that are started with the daemon, and saved at its end.
-- Logging is left out; `clock` is the time at which a rule is started.
use mole_port.Base.{
  Bool, List, String, [], arith, false, if◌then◌else◌, map, not, select, true, ℕ, ◌||◌, ◌∷◌,
}
use mole_port.Core.Enums.{active, session_status_eq}
use mole_port.Core.Errors.{Result, err, ok}
use mole_port.Core.Models.{ForwardRule, ForwardSession}
use mole_port.Core.SshPort.{SshPort}
use mole_port.Forward.State.{Manager}
use mole_port.Forward.Sessions.{get_all_sessions, get_session}
use mole_port.Forward.Lifecycle.{start_forward}
use mole_port.Forward.Invariant.{IsValid}
use mole_port.Forward.Operations.Starts.{start_forward-IsValid}

abbrev pub is_active : ForwardSession → Bool
is_active s = session_status_eq s.status active

-- saveState: the rules that are handed to SaveState
unfoldable pub saved_rules : Manager → List ForwardRule
unfolding get_all_sessions
saved_rules m = map (λ s. s.rule) (select is_active (get_all_sessions m))

-- `if s, err := GetSession(name); err == nil && s.Status == Active`
unfoldable pub already_active_session : Result ForwardSession → Bool
already_active_session (ok s) = is_active s
already_active_session (err e) = false

module _ (ssh : SshPort) (clock : String → ℕ) where
  unfoldable pub start_one : String → ssh.State × Manager → ssh.State × Manager
  unfolding start_forward
  start_one name (s, m) = let r = start_forward ssh name (clock name) s m in (r.1, r.2)

  -- The loop of restoreState, whose argument is what LoadState gives, and its guard
  unfoldable pub start_each : List ForwardRule → ssh.State × Manager → ssh.State × Manager
  unfolding start_one
  start_each [] x = x
  start_each (r ∷ rs) x = start_each rs (start_one r.name x)

  unfoldable pub restore_state :
      Bool → Result (List ForwardRule) → ssh.State × Manager → ssh.State × Manager
  unfolding start_each
  restore_state false state x = x
  restore_state true (err e) x = x
  restore_state true (ok rules) x = start_each rules x

  unfoldable pub auto_start_one : ForwardRule → ssh.State × Manager → ssh.State × Manager
  unfolding start_one get_session already_active_session
  auto_start_one r (s, m) =
      if not r.auto_connect || already_active_session (get_session r.name m)
      then (s, m)
      else start_one r.name (s, m)

  -- autoStartForwards, on the rules of the configuration
  unfoldable pub auto_start_forwards : List ForwardRule → ssh.State × Manager → ssh.State × Manager
  unfolding auto_start_one
  auto_start_forwards [] x = x
  auto_start_forwards (r ∷ rs) x = auto_start_forwards rs (auto_start_one r x)

  start_one-IsValid :
      (name : String) (s : ssh.State) (m : Manager) → IsValid m → IsValid (start_one name (s, m)).1
  unfolding start_one
  start_one-IsValid name s m v = start_forward-IsValid ssh name (clock name) s v

  start_each-IsValid :
      (rules : List ForwardRule) (s : ssh.State) (m : Manager)
      → IsValid m
      → IsValid (start_each rules (s, m)).1
  unfolding start_each
  start_each-IsValid [] s m v = v
  start_each-IsValid (r ∷ rs) s m v = start_each-IsValid rs _ _ (start_one-IsValid r.name s m v)

  pub restore_state-IsValid :
      (on : Bool) (state : Result (List ForwardRule)) (s : ssh.State) (m : Manager)
      → IsValid m
      → IsValid (restore_state on state (s, m)).1
  unfolding restore_state
  restore_state-IsValid false state s m v = v
  restore_state-IsValid true (err e) s m v = v
  restore_state-IsValid true (ok rules) s m v = start_each-IsValid rules s m v

  auto_start_one-IsValid :
      (r : ForwardRule) (s : ssh.State) (m : Manager)
      → IsValid m
      → IsValid (auto_start_one r (s, m)).1
  unfolding auto_start_one
  auto_start_one-IsValid r s m v = ground (arith, v, start_one-IsValid r.name s m v)

  pub auto_start_forwards-IsValid :
      (rules : List ForwardRule) (s : ssh.State) (m : Manager)
      → IsValid m
      → IsValid (auto_start_forwards rules (s, m)).1
  unfolding auto_start_forwards
  auto_start_forwards-IsValid [] s m v = v
  auto_start_forwards-IsValid (r ∷ rs) s m v =
      auto_start_forwards-IsValid rs _ _ (auto_start_one-IsValid r s m v)
