-- ===== src/Ssh/Agreement.antt =====
-- internal/core/ssh: the operations and the agreement of hosts and connections.
use mole_port.Base.{
  Bool, Bool-cases, Option, Option-cases, String, arith, delete, eq_iff, false, inl, inr, none, not,
  put, refl, some, ℕ, ◌&&◌, ◌+◌, ◌==◌, ◌≡◌, ◌≢◌,
}
use mole_port.Core.Enums.{
  connected, connecting, connection_error, connection_state_eq, disconnected, pending_auth,
}
use mole_port.Core.Events.{ssh_connected, ssh_disconnected, ssh_error, ssh_pending_auth}
use mole_port.Ssh.State.{
  HostConnection, SshManager, connecting_placeholder, connection, set_host_state, store,
}
use mole_port.Ssh.Lifecycle.{
  Reservation, already_there, cancel_reconnect, connect, connect_dialed, connect_done,
  connect_failed, connect_reserve, connect_reserved, disconnect, drop_conn, drop_placeholder,
  is_connected, reserve_new, reserved, taken_down, unknown_host,
}
use mole_port.Ssh.View.{IsWell, IsWellBut, but, publish-IsWell, set_host_state-IsWell}
use mole_port.Core.Errors.{Error, is_auth_failure}

-- A connection at the next free address.
new_conn-IsWellBut :
    (name : String) (hc : HostConnection) (m : SshManager)
    → IsWell m
    → IsWellBut name (record m {
      conns = put m.conns name m.next_conn;
      conn_at = store m.conn_at m.next_conn hc;
      next_conn = m.next_conn + 1;
    })
unfolding is_connected
new_conn-IsWellBut name hc m w = record {
  named = w.named;
  allocated = λ a p h. ground (arith, eq_iff name a, w.allocated a p);
  unshared = λ a b p h k. ground (
    arith,
    eq_iff name a,
    eq_iff name b,
    w.allocated a p,
    w.allocated b p,
    w.unshared a b p,
    h,
    k,
  );
  agrees_but = λ a i n h. elim (Option-cases (m.conns a)) [
    | inl e ↦ ground (arith, eq_iff name a, w.agrees a i h)
    | inr (p, e) ↦ ground (arith, eq_iff name a, w.agrees a i h, w.allocated a p e)
  ];
}

pub new_conn-is_connected :
    (name : String) (hc : HostConnection) (m : SshManager)
    → is_connected name (record m {
      conns = put m.conns name m.next_conn;
      conn_at = store m.conn_at m.next_conn hc;
      next_conn = m.next_conn + 1;
    })
      ≡ connection_state_eq hc.state connected
unfolding is_connected
new_conn-is_connected name hc m = ground (arith, eq_iff name name)

reserve_new-IsWell : (name : String) (m : SshManager) → IsWell m → IsWell (reserve_new name m).1
unfolding reserve_new
reserve_new-IsWell name m w =
    set_host_state-IsWell name connecting _ (new_conn-IsWellBut name connecting_placeholder m w)
      (new_conn-is_connected name connecting_placeholder m)

pub connect_reserve-IsWell :
    (name : String) (m : SshManager) → IsWell m → IsWell (connect_reserve name m).1
unfolding connect_reserve
connect_reserve-IsWell name m w = ground (arith, reserve_new-IsWell name m w)

pub connect_done-IsWell : (name : String) (m : SshManager) → IsWell m → IsWell (connect_done name m)
unfolding connect_done
connect_done-IsWell name m w = publish-IsWell ssh_connected name none _ (
    set_host_state-IsWell name connected _ (new_conn-IsWellBut name connection m w)
      (new_conn-is_connected name connection m))

-- A connection that is taken out, with a change to no other connection.
delete-IsWellBut :
    (name : String) (heap : ℕ → HostConnection) (m : SshManager)
    → IsWell m
    → ((a : String) (q : ℕ) → name ≢ a → m.conns a ≡ some q → heap q ≡ m.conn_at q)
    → IsWellBut name (record m { conns = delete m.conns name; conn_at = heap })
unfolding is_connected
delete-IsWellBut name heap m w same = record {
  named = w.named;
  allocated = λ a p h. ground (arith, eq_iff name a, w.allocated a p);
  unshared = λ a b p h k. ground (arith, eq_iff name a, eq_iff name b, w.unshared a b p, h, k);
  agrees_but = λ a i n h. elim (Option-cases (m.conns a)) [
    | inl e ↦ ground (arith, eq_iff name a, w.agrees a i h)
    | inr (p, e) ↦ ground (arith, eq_iff name a, w.agrees a i h, same a p n e)
  ];
}

pub delete-is_connected :
    (name : String) (heap : ℕ → HostConnection) (m : SshManager)
    → is_connected name (record m { conns = delete m.conns name; conn_at = heap }) ≡ false
unfolding is_connected
delete-is_connected name heap m = ground (arith, eq_iff name name)

drop_placeholder-IsWellBut :
    (name : String) (p : ℕ) (m : SshManager) → IsWell m → IsWellBut name (drop_placeholder name p m)
unfolding drop_placeholder is_connected
drop_placeholder-IsWellBut name p m w =
    let gone = delete-IsWellBut name m.conn_at m w (λ a q n e. refl) in
    elim (Option-cases (m.conns name)) [
      | inl e ↦ rw (e, drop_placeholder) (but name m w)
      | inr (q, e) ↦ elim (Bool-cases (q == p)) [
        | inl b ↦ rw (e, b, drop_placeholder) gone
        | inr b ↦ rw (e, b, drop_placeholder) (but name m w)
      ]
    ]

drop_placeholder-is_connected :
    (name : String) (p : ℕ) (m : SshManager)
    → m.conns name ≡ some p
    → is_connected name (drop_placeholder name p m) ≡ false
unfolding drop_placeholder is_connected
drop_placeholder-is_connected name p m e = ground (arith, eq_iff name name, e)

connect_failed-IsWell :
    (quote : String → String) (name : String) (p : ℕ) (interactive : Bool) (e : Error)
    (m : SshManager)
    → IsWell m
    → m.conns name ≡ some p
    → IsWell (connect_failed quote name p interactive e m).1
unfolding connect_failed
connect_failed-IsWell quote name p interactive e m w c =
    let half = drop_placeholder-IsWellBut name p m w in
    let off = drop_placeholder-is_connected name p m c in
    elim (Bool-cases (not interactive && is_auth_failure quote e)) [
      | inl b ↦
          rw (b, connect_failed)
            (publish-IsWell ssh_pending_auth name none _
              (set_host_state-IsWell name pending_auth _ half off))
      | inr b ↦
          rw (b, connect_failed)
            (publish-IsWell ssh_error name (some e) _
              (set_host_state-IsWell name connection_error _ half off))
    ]

pub drop_conn-IsWell :
    (name : String) (p : ℕ) (m : SshManager)
    → IsWell m
    → m.conns name ≡ some p
    → IsWell (drop_conn name p m)
unfolding drop_conn
drop_conn-IsWell name p m w c =
    let heap = store m.conn_at p (taken_down (m.conn_at p)) in
    set_host_state-IsWell name disconnected _
      (delete-IsWellBut name heap m w (λ a q n e. ground (arith, w.unshared name a p c)))
      (delete-is_connected name heap m)

pub cancel_reconnect-IsWell :
    (name : String) (m : SshManager) → IsWell m → IsWell (cancel_reconnect name m)
unfolding cancel_reconnect is_connected
cancel_reconnect-IsWell name m w = elim (Option-cases (m.reconnect_cancels name)) [
  | inl e ↦ rw (e, cancel_reconnect) w
  | inr (l, e) ↦
      rw (e, cancel_reconnect)
        (record {
          named = w.named;
          allocated = w.allocated;
          unshared = w.unshared;
          agrees = w.agrees;
        })
]

pub disconnect-IsWell : (name : String) (m : SshManager) → IsWell m → IsWell (disconnect name m)
unfolding disconnect
disconnect-IsWell name m w =
    let w' = cancel_reconnect-IsWell name m w in
    elim (Option-cases ((cancel_reconnect name m).conns name)) [
      | inl e ↦ rw (e, disconnect) w'
      | inr (p, e) ↦
          rw (e, disconnect)
            (publish-IsWell ssh_disconnected name none _
              (drop_conn-IsWell name p (cancel_reconnect name m) w' e))
    ]

reserve_new-conns :
    (name : String) (m : SshManager) (p : ℕ)
    → (reserve_new name m).0 ≡ reserved p
    → (reserve_new name m).1.conns name ≡ some p
unfolding reserve_new set_host_state
reserve_new-conns name m p e = ground (arith, eq_iff name name)

connect_reserve-conns :
    (name : String) (m : SshManager) (p : ℕ)
    → (connect_reserve name m).0 ≡ reserved p
    → (connect_reserve name m).1.conns name ≡ some p
unfolding connect_reserve
connect_reserve-conns name m p e = ground (arith, reserve_new-conns name m p)

connect_reserved-IsWell :
    (quote : String → String) (name : String) (interactive : Bool) (dial : Option Error)
    (r : Reservation) (m : SshManager)
    → IsWell m
    → ((p : ℕ) → r ≡ reserved p → m.conns name ≡ some p)
    → IsWell (connect_reserved quote name interactive dial (r, m)).1
unfolding connect_reserved connect_dialed
connect_reserved-IsWell quote name interactive dial unknown_host m w c = w
connect_reserved-IsWell quote name interactive dial already_there m w c = w
connect_reserved-IsWell quote name interactive (some e) (reserved p) m w c =
    connect_failed-IsWell quote name p interactive e m w (c p refl)
connect_reserved-IsWell quote name interactive none (reserved p) m w c =
    connect_done-IsWell name m w

pub connect-IsWell :
    (quote : String → String) (name : String) (interactive : Bool) (dial : Option Error)
    (m : SshManager)
    → IsWell m
    → IsWell (connect quote name interactive dial m).1
unfolding connect
connect-IsWell quote name interactive dial m w =
    connect_reserved-IsWell quote name interactive dial (connect_reserve name m).0
      (connect_reserve name m).1 (connect_reserve-IsWell name m w) (connect_reserve-conns name m)
