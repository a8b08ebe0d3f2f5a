-- ===== src/Ssh/Looping.antt =====
-- internal/core/ssh/reconnect.go: the agreement under the reconnect loop, and under all requests.
use mole_port.Base.{
  Bool, Bool-cases, Map, Option-cases, String, arith, delete, false, inl, inr, none, not, pos_part,
  refl, some, suc, zero, ℕ, ℤ, ◌&&◌, ◌+◌, ◌||◌, ◌∙◌, ◌≡◌,
}
use mole_port.Core.Enums.{ConnectionState, connection_error, disconnected, reconnecting}
use mole_port.Core.Events.{SshEventType, ssh_disconnected, ssh_error, ssh_reconnecting}
use mole_port.Core.Settings.{ReconnectConfig}
use mole_port.Ssh.State.{SshManager, publish, set_host_state, store}
use mole_port.Ssh.Lifecycle.{cancel_reconnect, drop_conn, is_connected, taken_down}
use mole_port.Ssh.Reconnect.{
  Cleanup, Schedule, attempt_dialed, attempts, cleaned, cleanup_disconnected, commit_reconnect,
  give_up, handle_cleaned, handle_disconnect, nothing_there, panicked, reconnect_loop,
  register_reconnect_cancel, start_loop,
}
use mole_port.Ssh.View.{IsWell, but, publish-IsWell, set_host_state-IsWell}
use mole_port.Ssh.Agreement.{
  cancel_reconnect-IsWell, connect_done-IsWell, delete-is_connected, drop_conn-IsWell,
}
use mole_port.Ssh.Backoff.{backoff_with_jitter}

-- The manager while the loop of `name` waits or dials.
abbrev pub IsDown : String → SshManager → Type 0
IsDown name m = IsWell m × (is_connected name m ≡ false)

-- Nothing that happens in between breaks the agreement or connects the host.
abbrev pub IsQuiet : String → Schedule → Type 0
IsQuiet name s =
    (n : ℕ) (m : SshManager)
    → IsDown name m
    → IsDown name (s.waiting n m) × IsDown name (s.dialing n m)

pub set_host_state-is_connected :
    (name : String) (s : ConnectionState) (a : String) (m : SshManager)
    → is_connected a (set_host_state name s m) ≡ is_connected a m
unfolding set_host_state is_connected
set_host_state-is_connected name s a m = ground arith

cancels-IsWell :
    (m : SshManager) (cancels : Map ℕ) (flags : ℕ → Bool) (next : ℕ)
    → IsWell m
    → IsWell (record m { reconnect_cancels = cancels; loop_cancelled = flags; next_loop = next })
unfolding is_connected
cancels-IsWell m cancels flags next w = record {
  named = w.named;
  allocated = w.allocated;
  unshared = w.unshared;
  agrees = w.agrees;
}

cancel_reconnect-is_connected :
    (name a : String) (m : SshManager) → is_connected a (cancel_reconnect name m) ≡ is_connected a m
unfolding cancel_reconnect is_connected
cancel_reconnect-is_connected name a m = ground arith

register_reconnect_cancel-IsDown :
    (name : String) (m : SshManager)
    → IsDown name m
    → IsDown name (register_reconnect_cancel name m)
unfolding register_reconnect_cancel is_connected
register_reconnect_cancel-IsDown name m (w, off) = (
  cancels-IsWell (cancel_reconnect name m) _ _ _ (cancel_reconnect-IsWell name m w),
  cancel_reconnect-is_connected name name m ∙ off,
)

publish-IsDown :
    (type : SshEventType) (name : String) (m : SshManager)
    → IsDown name m
    → IsDown name (publish type name none m)
unfolding publish is_connected
publish-IsDown type name m (w, off) = (publish-IsWell type name none m w, off)

start_loop-IsDown :
    (name : String) (m : SshManager) → IsDown name m → IsDown name (start_loop name m)
unfolding start_loop
start_loop-IsDown name m d =
    let (w, off) =
      publish-IsDown ssh_reconnecting name (register_reconnect_cancel name m)
        (register_reconnect_cancel-IsDown name m d) in
    (
      set_host_state-IsWell name reconnecting _ (but name _ w) off,
      set_host_state-is_connected name reconnecting name _ ∙ off,
    )

pub forget_loop-is_connected :
    (name : String) (cancels : Map ℕ) (m : SshManager)
    → is_connected name (record m { reconnect_cancels = cancels }) ≡ is_connected name m
unfolding is_connected
forget_loop-is_connected name cancels m = refl

commit_reconnect-IsWell :
    (name : String) (m : SshManager) → IsWell m → IsWell (commit_reconnect name m)
unfolding commit_reconnect
commit_reconnect-IsWell name m w =
    connect_done-IsWell name _
      (cancels-IsWell m (delete m.reconnect_cancels name) m.loop_cancelled m.next_loop w)

give_up-IsWell :
    (name : String) (retries : ℤ) (m : SshManager) → IsDown name m → IsWell (give_up name retries m)
unfolding give_up
give_up-IsWell name retries m (w, off) = publish-IsWell ssh_error name _ _ (
    set_host_state-IsWell name connection_error _
      (but name _
        (cancels-IsWell m (delete m.reconnect_cancels name) m.loop_cancelled m.next_loop w))
      (forget_loop-is_connected name (delete m.reconnect_cancels name) m ∙ off))

module _ (s : Schedule) (name : String) (cfg : ReconnectConfig) (l : ℕ)
    (quiet : IsQuiet name s) where
  attempts-IsWell :
      (fuel n : ℕ) (delay : ℤ) (m : SshManager)
      → IsDown name m
      → IsWell (attempts s name cfg l fuel n delay m).1
  unfolding attempts attempt_dialed
  attempts-IsWell zero n delay m d = give_up-IsWell name cfg.max_retries m d
  attempts-IsWell (suc fuel) n delay m d =
      let woken = (quiet n m d).0 in
      let dialed = (quiet n (s.waiting n m) woken).1 in
      elim (Bool-cases
        ((s.waiting n m).loop_cancelled l && not (s.timer_wins n) || (s.waiting n m).closed)) [
          | inl b ↦ rw (b, attempts) (woken.0)
          | inr b ↦ elim (Option-cases (s.dial n)) [
            | inl e ↦ rw (b, e, attempts, attempt_dialed) (commit_reconnect-IsWell name _ dialed.0)
            | inr (e, f) ↦
                rw (b, f, attempts, attempt_dialed)
                  (attempts-IsWell fuel (n + 1)
                    (backoff_with_jitter (s.random n) delay cfg.max_delay) _ dialed)
          ]
        ]

reconnect_loop-IsWell :
    (s : Schedule) (name : String) (cfg : ReconnectConfig) (m : SshManager)
    → IsQuiet name s
    → IsDown name m
    → IsWell (reconnect_loop s name cfg m).1
unfolding reconnect_loop
reconnect_loop-IsWell s name cfg m quiet d = cancels-IsWell _ _ _ _ (
    attempts-IsWell s name cfg m.next_loop quiet (pos_part cfg.max_retries) 0 cfg.initial_delay
      (start_loop name m) (start_loop-IsDown name m d))

drop_conn-IsDown :
    (name : String) (p : ℕ) (m : SshManager)
    → IsWell m
    → m.conns name ≡ some p
    → IsDown name (drop_conn name p m)
unfolding drop_conn
drop_conn-IsDown name p m w c = (
  drop_conn-IsWell name p m w c,
  set_host_state-is_connected name disconnected name _
      ∙ delete-is_connected name (store m.conn_at p (taken_down (m.conn_at p))) m,
)

handle_cleaned-IsWell :
    (s : Schedule) (name : String) (c : Cleanup) (m : SshManager)
    → IsQuiet name s
    → IsWell m
    → ((cfg : ReconnectConfig) → c ≡ cleaned cfg → is_connected name m ≡ false)
    → IsWell (handle_cleaned s name (c, m)).1
unfolding handle_cleaned
handle_cleaned-IsWell s name nothing_there m quiet w off = w
handle_cleaned-IsWell s name panicked m quiet w off = w
handle_cleaned-IsWell s name (cleaned cfg) m quiet w off =
    let d = publish-IsDown ssh_disconnected name m (w, off cfg refl) in
    elim (Bool-cases cfg.enabled) [
      | inl b ↦ rw (b, handle_cleaned) (reconnect_loop-IsWell s name cfg _ quiet d)
      | inr b ↦ rw (b, handle_cleaned) d.0
    ]

-- What cleanupDisconnected promises: a host that it cleaned is down.
abbrev IsCleaned : String → Cleanup × SshManager → Type 0
IsCleaned name r =
    IsWell r.1 × ((cfg : ReconnectConfig) → r.0 ≡ cleaned cfg → is_connected name r.1 ≡ false)

cleanup_disconnected-IsCleaned :
    (name : String) (m : SshManager) → IsWell m → IsCleaned name (cleanup_disconnected name m)
unfolding cleanup_disconnected
cleanup_disconnected-IsCleaned name m w = elim (Option-cases (m.conns name)) [
  | inl e ↦ rw (e, cleanup_disconnected) (w, λ cfg h. ground (arith, h))
  | inr (p, e) ↦ elim (Bool-cases (m.conn_at p).dialed) [
    | inr d ↦ rw (e, d, cleanup_disconnected) (w, λ cfg h. ground (arith, h))
    | inl d ↦ elim (Bool-cases (m.conn_at p).cancelled) [
      | inl c ↦ rw (e, d, c, cleanup_disconnected) (w, λ cfg h. ground (arith, h))
      | inr c ↦
          let (w', off) = drop_conn-IsDown name p m w e in
          rw (e, d, c, cleanup_disconnected) (w', λ cfg h. off)
    ]
  ]
]

pub handle_disconnect-IsWell :
    (s : Schedule) (name : String) (m : SshManager)
    → IsQuiet name s
    → IsWell m
    → IsWell (handle_disconnect s name m).1
unfolding handle_disconnect
handle_disconnect-IsWell s name m quiet w =
    let (w', off) = cleanup_disconnected-IsCleaned name m w in
    handle_cleaned-IsWell s name (cleanup_disconnected name m).0 (cleanup_disconnected name m).1
      quiet w' off
