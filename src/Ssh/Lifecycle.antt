-- ===== src/Ssh/Lifecycle.antt =====
-- internal/core/ssh/lifecycle.go: connecting and disconnecting. A connect holds the lock before and
-- after its dial; `connect_reserve`, `connect_failed` and `connect_done` are its locked sections.
use mole_port.Base.{
  Bool, List, Option, String, [], delete, false, if◌then◌else◌, no_entries, none, not, put, some,
  true, ℕ, ◌&&◌, ◌+◌, ◌<>◌, ◌==◌, ◌||◌, ◌∷◌,
}
use mole_port.Core.Enums.{
  ConnectionState, connected, connecting, connection_error, connection_state_eq, disconnected,
  pending_auth,
}
use mole_port.Core.Errors.{
  Error, Result, auth_required, err, is_auth_failure, not_connected, not_found, ok, wrap,
}
use mole_port.Core.Events.{
  close_subscribers, ssh_connected, ssh_disconnected, ssh_error, ssh_pending_auth, subscribe,
}
use mole_port.Ssh.State.{
  HostConnection, SshManager, connecting_placeholder, connection, publish, set_host_state, store,
}

abbrev pub is_busy : ConnectionState → Bool
is_busy connected = true
is_busy connecting = true
is_busy _ = false

-- What the first locked section of connectInternal decides.
pub data Reservation : Type 0 where
  unknown_host already_there : Reservation
  reserved : ℕ → Reservation

unfoldable pub reserve_new : String → SshManager → Reservation × SshManager
unfolding set_host_state
reserve_new name m = (
  reserved m.next_conn,
  set_host_state name connecting (record m {
    conns = put m.conns name m.next_conn;
    conn_at = store m.conn_at m.next_conn connecting_placeholder;
    next_conn = m.next_conn + 1;
  }),
)

unfoldable pub connect_reserve : String → SshManager → Reservation × SshManager
unfolding reserve_new
connect_reserve name m = elim (m.hosts_map name) [
  | none ↦ (unknown_host, m)
  | some i ↦ elim (m.conns name) [
    | none ↦ reserve_new name m
    | some p ↦ if is_busy (m.conn_at p).state then (already_there, m) else reserve_new name m
  ]
]

-- `if current, exists := m.conns[hostName]; exists && current == hcConnecting`
unfoldable pub drop_placeholder : String → ℕ → SshManager → SshManager
drop_placeholder name p m = elim (m.conns name) [
  | none ↦ m
  | some q ↦ if q == p then record m { conns = delete m.conns name } else m
]

module _ (quote : String → String) where
  -- The section behind a dial that failed: `interactive` is `cb != nil`.
  unfoldable pub connect_failed : String → ℕ → Bool → Error → SshManager → Error × SshManager
  unfolding drop_placeholder set_host_state publish is_auth_failure
  connect_failed name p interactive e m =
      if not interactive && is_auth_failure quote e
      then (
        auth_required name e,
        publish ssh_pending_auth name none
            (set_host_state name pending_auth (drop_placeholder name p m)),
      )
      else (
        wrap ("failed to connect to " <> name) e,
        publish ssh_error name (some e)
            (set_host_state name connection_error (drop_placeholder name p m)),
      )

-- The section behind a dial that succeeded. tryReconnect has the same, and forgets its loop, too.
unfoldable pub connect_done : String → SshManager → SshManager
unfolding set_host_state publish
connect_done name m = publish ssh_connected name none (
    set_host_state name connected (record m {
      conns = put m.conns name m.next_conn;
      conn_at = store m.conn_at m.next_conn connection;
      next_conn = m.next_conn + 1;
    }))

module _ (quote : String → String) where
  unfoldable pub connect_dialed :
      String → Bool → ℕ → Option Error → SshManager → Option Error × SshManager
  unfolding connect_failed connect_done
  connect_dialed name interactive p (some e) m =
      let (text, m') = connect_failed quote name p interactive e m in (some text, m')
  connect_dialed name interactive p none m = (none, connect_done name m)

  unfoldable pub connect_reserved :
      String → Bool → Option Error → Reservation × SshManager → Option Error × SshManager
  unfolding connect_dialed
  connect_reserved name interactive dial (unknown_host, m) = (some (not_found "host" name), m)
  connect_reserved name interactive dial (already_there, m) = (none, m)
  connect_reserved name interactive dial (reserved p, m) = connect_dialed name interactive p dial m

  -- connectInternal with nothing in between its locked sections; `dial` is what the dial returns.
  unfoldable pub connect : String → Bool → Option Error → SshManager → Option Error × SshManager
  unfolding connect_reserved
  connect name interactive dial m = connect_reserved name interactive dial (connect_reserve name m)

-- hc.cancel(), hc.conn.Close() where there are such, and the state
abbrev pub taken_down : HostConnection → HostConnection
taken_down hc = record {
  dialed = hc.dialed;
  state = disconnected;
  cancelled = hc.dialed || hc.cancelled;
  conn_closed = hc.dialed || hc.conn_closed;
}

-- `reconnectCancel(); delete(m.reconnectCancels, hostName)`
unfoldable pub cancel_reconnect : String → SshManager → SshManager
cancel_reconnect name m = elim (m.reconnect_cancels name) [
  | none ↦ m
  | some l ↦ record m {
    reconnect_cancels = delete m.reconnect_cancels name;
    loop_cancelled = store m.loop_cancelled l true;
  }
]

unfoldable pub drop_conn : String → ℕ → SshManager → SshManager
unfolding set_host_state
drop_conn name p m = set_host_state name disconnected (record m {
  conns = delete m.conns name;
  conn_at = store m.conn_at p (taken_down (m.conn_at p));
})

-- Disconnect, whose error is always nil
unfoldable pub disconnect : String → SshManager → SshManager
unfolding cancel_reconnect drop_conn publish
disconnect name m =
    let m' = cancel_reconnect name m in
    elim (m'.conns name) [
      | none ↦ m'
      | some p ↦ publish ssh_disconnected name none (drop_conn name p m')
    ]

-- IsConnected
unfoldable pub is_connected : String → SshManager → Bool
is_connected name m = elim (m.conns name) [
  | none ↦ false
  | some p ↦ connection_state_eq (m.conn_at p).state connected
]

-- GetConnection and GetSSHConnection: the address of the connection
unfoldable pub get_connection : String → SshManager → Result ℕ
get_connection name m = elim (m.conns name) [
  | none ↦ err (not_connected name)
  | some p ↦
      if connection_state_eq (m.conn_at p).state connected then ok p else err (not_connected name)
]

-- The loops of Close over the reconnect loops and over the connections, in the orders given.
unfoldable pub cancel_all : List String → SshManager → SshManager
unfolding cancel_reconnect
cancel_all [] m = m
cancel_all (name ∷ names) m = cancel_all names (cancel_reconnect name m)

unfoldable pub close_one : String → SshManager → SshManager
unfolding set_host_state
close_one name m = elim (m.conns name) [
  | none ↦ m
  | some p ↦
      set_host_state name disconnected
        (record m { conn_at = store m.conn_at p (taken_down (m.conn_at p)) })
]

unfoldable pub close_all : List String → SshManager → SshManager
unfolding close_one
close_all [] m = m
close_all (name ∷ names) m = close_all names (close_one name m)

-- Close
unfoldable pub close_manager : List String → List String → SshManager → SshManager
unfolding cancel_all close_all close_subscribers
close_manager loops names m =
    let m' = close_all names (cancel_all loops (record m { closed = true })) in
    record m' { conns = no_entries; events = close_subscribers m'.events }

-- Subscribe
unfoldable pub subscribe_events : SshManager → SshManager
unfolding subscribe
subscribe_events m = record m { events = subscribe m.events }
