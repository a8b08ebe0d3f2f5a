-- ===== src/Ssh/Races.antt =====
-- internal/core/ssh: orders of events around the reconnect loop, which keeps the lock free as it dials.
use mole_port.Base.{String, arith, eq_iff, eq_refl, false, none, some, suc, true, ℕ, ℤ, ◌≡◌, ◌≢◌}
use mole_port.Core.Settings.{ReconnectConfig}
use mole_port.Ssh.State.{SshManager, publish, set_host_state}
use mole_port.Ssh.Lifecycle.{
  cancel_reconnect, connect_done, connect_reserve, disconnect, drop_conn, is_connected, reserve_new,
}
use mole_port.Ssh.Reconnect.{
  Schedule, attempt_dialed, attempts, cleanup_disconnected, commit_reconnect, crashed,
  handle_cleaned, handle_disconnect, keep_alive_ended,
}
use mole_port.Ssh.Outcomes.{commit_reconnect-is_connected}
use mole_port.Ssh.View.{IsWell}

disconnect-loop_cancelled :
    (name : String) (l : ℕ) (m : SshManager)
    → m.reconnect_cancels name ≡ some l
    → (disconnect name m).loop_cancelled l ≡ true
unfolding disconnect cancel_reconnect drop_conn publish set_host_state
disconnect-loop_cancelled name l m e = ground (arith, e)

-- A host that is disconnected while its reconnect loop dials is connected again once the dial succeeds,
-- though the disconnect has cancelled the loop.
pub attempts-undoes_disconnect :
    (s : Schedule) (name : String) (cfg : ReconnectConfig) (l fuel n : ℕ) (delay : ℤ)
    (m : SshManager)
    → s.waiting n m ≡ m
    → s.dialing n m ≡ disconnect name m
    → s.dial n ≡ none
    → m.reconnect_cancels name ≡ some l
    → m.loop_cancelled l ≡ false
    → m.closed ≡ false
    → ((s.dialing n m).loop_cancelled l ≡ true)
      × (is_connected name (attempts s name cfg l (suc fuel) n delay m).1 ≡ true)
unfolding attempts attempt_dialed
attempts-undoes_disconnect s name cfg l fuel n delay m calm during dialed mine live still = (
  rw during (disconnect-loop_cancelled name l m mine),
  rw (attempts, calm, live, still, calm, dialed, attempt_dialed)
      (commit_reconnect-is_connected name (s.dialing n m)),
)

-- A connection that is made for the host while a reconnect dials is neither closed nor cancelled once the
-- dial succeeds, and no host has it any more.
pub commit_reconnect-leaks :
    (name : String) (p : ℕ) (m : SshManager)
    → IsWell m
    → m.conns name ≡ some p
    → ((commit_reconnect name m).conn_at p ≡ m.conn_at p)
      × ((a : String) → (commit_reconnect name m).conns a ≢ some p)
unfolding commit_reconnect connect_done publish set_host_state
commit_reconnect-leaks name p m w c = (
  ground (arith, w.allocated name p c),
  λ a h. ground (arith, eq_iff name a, w.unshared name a p c, w.allocated name p c, h),
)

-- The reconnect loop of a host commits its connection over another, the host is disconnected, and a connect
-- takes its placeholder.
unfoldable pub reserved_behind_leak : String → SshManager → SshManager
unfolding commit_reconnect disconnect connect_reserve
reserved_behind_leak name m = (connect_reserve name (disconnect name (commit_reconnect name m))).1

-- A reconnect loop that commits over the connection of a host leaves that connection out of sight. If the
-- host is disconnected after that, and the keep-alive of the connection out of sight ends while a new
-- connect dials, then the code panics: its context is not cancelled, and the host has a placeholder.
pub keep_alive_ended-crashed :
    (s : Schedule) (name : String) (p i : ℕ) (m : SshManager)
    → IsWell m
    → m.hosts_map name ≡ some i
    → m.conns name ≡ some p
    → (m.conn_at p).cancelled ≡ false
    → (keep_alive_ended s name p (reserved_behind_leak name m)).0 ≡ crashed
unfolding keep_alive_ended handle_disconnect handle_cleaned cleanup_disconnected connect_reserve
    reserve_new set_host_state reserved_behind_leak commit_reconnect connect_done publish disconnect
    cancel_reconnect drop_conn
keep_alive_ended-crashed s name p i m w known here live =
    ground (arith, eq_refl name, known, here, live, w.allocated name p here)
