-- ===== src/Ssh/Outcomes.antt =====
-- internal/core/ssh/reconnect.go: how the reconnect loop ends when nothing disturbs it.
use mole_port.Base.{
  Bool, Option, Option-cases, String, arith, delete, false, inl, inr, none, pos_part, refl, some,
  suc, true, zero, ℕ, ℤ, ◌+◌, ◌∙◌, ◌≡◌,
}
use mole_port.Core.Errors.{Error}
use mole_port.Core.Settings.{ReconnectConfig}
use mole_port.Ssh.State.{SshManager, connection, publish, set_host_state}
use mole_port.Ssh.Lifecycle.{cancel_reconnect, connect_done, is_connected}
use mole_port.Ssh.Reconnect.{
  Ending, Schedule, attempt_dialed, attempts, commit_reconnect, gave_up, give_up, reconnect_loop,
  reconnected_at, register_reconnect_cancel, start_loop,
}
use mole_port.Core.Enums.{connected, connection_error}
use mole_port.Core.Events.{SshEventType, ssh_connected, ssh_error}
use mole_port.Ssh.Backoff.{backoff_with_jitter}
use mole_port.Ssh.Agreement.{new_conn-is_connected}
use mole_port.Ssh.Looping.{forget_loop-is_connected, set_host_state-is_connected}

-- What the outcomes of the dials, at most `fuel` of them from the n-th on, make of the loop.
unfoldable pub first_success : (ℕ → Option Error) → ℕ → ℕ → Ending
first_success dial zero n = gave_up
first_success dial (suc fuel) n =
    let rest = first_success dial fuel (n + 1) in
    elim (dial n) [ none ↦ reconnected_at n | some e ↦ rest ]

unfoldable pub is_success : Ending → Bool
is_success (reconnected_at n) = true
is_success _ = false

-- Nothing happens while the loop waits or dials.
abbrev pub IsIdle : Schedule → Type 0
IsIdle s = (n : ℕ) (m : SshManager) → (s.waiting n m ≡ m) × (s.dialing n m ≡ m)

publish-is_connected :
    (type : SshEventType) (name : String) (error : Option Error) (m : SshManager)
    → is_connected name (publish type name error m) ≡ is_connected name m
unfolding publish is_connected
publish-is_connected type name error m = refl

pub connect_done-is_connected :
    (name : String) (m : SshManager) → is_connected name (connect_done name m) ≡ true
unfolding connect_done
connect_done-is_connected name m =
    publish-is_connected ssh_connected name none _
    ∙ (set_host_state-is_connected name connected name _ ∙ new_conn-is_connected name connection m)

pub commit_reconnect-is_connected :
    (name : String) (m : SshManager) → is_connected name (commit_reconnect name m) ≡ true
unfolding commit_reconnect
commit_reconnect-is_connected name m =
    connect_done-is_connected name
      (record m { reconnect_cancels = delete m.reconnect_cancels name })

give_up-is_connected :
    (name : String) (retries : ℤ) (m : SshManager)
    → is_connected name m ≡ false
    → is_connected name (give_up name retries m) ≡ false
unfolding give_up
give_up-is_connected name retries m off =
    publish-is_connected ssh_error name _ _
    ∙ (set_host_state-is_connected name connection_error name _
        ∙ (forget_loop-is_connected name (delete m.reconnect_cancels name) m ∙ off))

-- The ending, and whether the host is connected then.
abbrev pub IsOutcome : String → Ending → Ending × SshManager → Type 0
IsOutcome name ending r = (r.0 ≡ ending) × (is_connected name r.1 ≡ is_success ending)

module _ (s : Schedule) (name : String) (cfg : ReconnectConfig) (l : ℕ) (idle : IsIdle s) where
  attempts-IsOutcome :
      (fuel n : ℕ) (delay : ℤ) (m : SshManager)
      → m.loop_cancelled l ≡ false
      → m.closed ≡ false
      → is_connected name m ≡ false
      → IsOutcome name (first_success s.dial fuel n) (attempts s name cfg l fuel n delay m)
  unfolding attempts first_success attempt_dialed is_success
  attempts-IsOutcome zero n delay m live open_ off =
      (refl, give_up-is_connected name cfg.max_retries m off)
  attempts-IsOutcome (suc fuel) n delay m live open_ off = elim (Option-cases (s.dial n)) [
    | inl e ↦
        rw
          (
            attempts,
            (idle n m).0,
            live,
            open_,
            (idle n m).0,
            (idle n m).1,
            e,
            first_success,
            attempt_dialed,
          )
          (refl, commit_reconnect-is_connected name m)
    | inr (x, e) ↦
        rw
          (
            attempts,
            (idle n m).0,
            live,
            open_,
            (idle n m).0,
            (idle n m).1,
            e,
            first_success,
            attempt_dialed,
          )
          (attempts-IsOutcome fuel (n + 1) (backoff_with_jitter (s.random n) delay cfg.max_delay) m
            live open_ off)
  ]

start_loop-live :
    (name : String) (m : SshManager)
    → ((start_loop name m).loop_cancelled m.next_loop ≡ false)
      × ((start_loop name m).closed ≡ m.closed)
      × (is_connected name (start_loop name m) ≡ is_connected name m)
unfolding start_loop register_reconnect_cancel cancel_reconnect publish set_host_state is_connected
start_loop-live name m = ground arith

-- On an open manager, with nothing else happening, the reconnect loop of a host that is down ends with the
-- first dial that succeeds, and the host is connected; it gives up after the configured number of failures
-- (at once where that is negative or zero), and the host is not connected.
pub reconnect_loop-IsOutcome :
    (s : Schedule) (name : String) (cfg : ReconnectConfig) (m : SshManager)
    → IsIdle s
    → m.closed ≡ false
    → is_connected name m ≡ false
    → IsOutcome name
        (first_success s.dial (pos_part cfg.max_retries) 0)
        (reconnect_loop s name cfg m)
unfolding reconnect_loop is_connected
reconnect_loop-IsOutcome s name cfg m idle still off =
    let (live, same, down) = start_loop-live name m in
    let (ending, outcome) =
      attempts-IsOutcome s name cfg m.next_loop idle (pos_part cfg.max_retries) 0 cfg.initial_delay
        (start_loop name m) live (same ∙ still) (down ∙ off) in
    (ending, outcome)
