-- ===== src/Ssh/Reconnect.antt =====
-- internal/core/ssh/reconnect.go: what follows a connection that drops. The loop frees the lock while it
-- waits and dials; a `Schedule` says what happens in between.
use mole_port.Base.{
  Bool, Option, String, delete, false, if◌then◌else◌, itoa_ℤ, none, not, pos_part, put, some, suc,
  true, zero, ℕ, ℤ, ◌&&◌, ◌+◌, ◌<>◌, ◌||◌,
}
use mole_port.Core.Enums.{connection_error, reconnecting}
use mole_port.Core.Errors.{Error, other}
use mole_port.Core.Events.{ssh_disconnected, ssh_error, ssh_reconnecting}
use mole_port.Core.Settings.{ReconnectConfig}
use mole_port.Ssh.State.{SshManager, publish, set_host_state, store}
use mole_port.Ssh.Lifecycle.{cancel_reconnect, connect_done, drop_conn}
use mole_port.Ssh.Backoff.{backoff_with_jitter, resolve_reconnect_config}

-- `m.hostConfigs[hostName]`, whose override may be nil
unfoldable pub config_for : String → SshManager → ReconnectConfig
unfolding resolve_reconnect_config
config_for name m = elim (m.host_configs name) [
  | none ↦ m.reconnect_cfg
  | some o ↦ resolve_reconnect_config m.reconnect_cfg o
]

-- What cleanupDisconnected returns, of which the host only goes to the dial. A placeholder has no
-- context, and `hc.ctx.Done()` panics on it.
pub data Cleanup : Type 0 where
  nothing_there panicked : Cleanup
  cleaned : ReconnectConfig → Cleanup

-- cleanupDisconnected
unfoldable pub cleanup_disconnected : String → SshManager → Cleanup × SshManager
unfolding drop_conn config_for
cleanup_disconnected name m = elim (m.conns name) [
  | none ↦ (nothing_there, m)
  | some p ↦
      if not (m.conn_at p).dialed
      then (panicked, m)
      else if (m.conn_at p).cancelled
      then (nothing_there, m)
      else (cleaned (config_for name m), drop_conn name p m)
]

-- registerReconnectCancel, behind the context.WithCancel that makes the loop's cancel function
unfoldable pub register_reconnect_cancel : String → SshManager → SshManager
unfolding cancel_reconnect
register_reconnect_cancel name m =
    let m' = cancel_reconnect name m in
    record m' {
      reconnect_cancels = put m'.reconnect_cancels name m'.next_loop;
      loop_cancelled = store m'.loop_cancelled m'.next_loop false;
      next_loop = m'.next_loop + 1;
    }

-- The head of reconnectLoop.
unfoldable pub start_loop : String → SshManager → SshManager
unfolding register_reconnect_cancel publish set_host_state
start_loop name m =
    set_host_state name reconnecting
      (publish ssh_reconnecting name none (register_reconnect_cancel name m))

-- The locked section of tryReconnect
unfoldable pub commit_reconnect : String → SshManager → SshManager
unfolding connect_done
commit_reconnect name m =
    connect_done name (record m { reconnect_cancels = delete m.reconnect_cancels name })

-- The tail of reconnectLoop, behind the last attempt
unfoldable pub give_up : String → ℤ → SshManager → SshManager
unfolding set_host_state publish itoa_ℤ
give_up name retries m =
    publish ssh_error name
      (some (other ("reconnect failed after " <> itoa_ℤ retries <> " attempts")))
      (set_host_state name connection_error
        (record m { reconnect_cancels = delete m.reconnect_cancels name }))

-- For each attempt: what other goroutines do during the wait and during the dial, whether the timer wins
-- where the loop is cancelled as well, what the dial returns, and the random numbers of the back-off.
pub record Schedule : Type 0 where
  pub waiting : ℕ → SshManager → SshManager
  pub dialing : ℕ → SshManager → SshManager
  pub timer_wins : ℕ → Bool
  pub dial : ℕ → Option Error
  pub random : ℕ → ℕ → Option ℕ

pub data Ending : Type 0 where
  not_started crashed interrupted gave_up : Ending
  reconnected_at : ℕ → Ending

module _ (s : Schedule) (name : String) (cfg : ReconnectConfig) (l : ℕ) where
  -- tryReconnect with the dial's return, and the rest of the loop where it fails.
  unfoldable pub attempt_dialed :
      ℕ → Option Error → (SshManager → Ending × SshManager) → SshManager → Ending × SshManager
  unfolding commit_reconnect
  attempt_dialed n (some e) rest m = rest m
  attempt_dialed n none rest m = (reconnected_at n, commit_reconnect name m)

  -- Attempt n and the `fuel` attempts behind it; the delay is kept, as nothing else depends on it.
  unfoldable pub attempts : ℕ → ℕ → ℤ → SshManager → Ending × SshManager
  unfolding attempt_dialed give_up backoff_with_jitter
  attempts zero n delay m = (gave_up, give_up name cfg.max_retries m)
  attempts (suc fuel) n delay m =
      let woken = s.waiting n m in
      elim (woken.loop_cancelled l && not (s.timer_wins n) || woken.closed) [
        | true ↦ (interrupted, woken)
        | false ↦
            attempt_dialed n (s.dial n)
              (λ m'.
                attempts fuel (n + 1) (backoff_with_jitter (s.random n) delay cfg.max_delay) m')
              (s.dialing n woken)
      ]

-- The deferred reconnectCancel()
abbrev pub end_loop : ℕ → SshManager → SshManager
end_loop l m = record m { loop_cancelled = store m.loop_cancelled l true }

-- reconnectLoop: at most `MaxRetries` attempts, none where that is negative
unfoldable pub reconnect_loop :
    Schedule → String → ReconnectConfig → SshManager → Ending × SshManager
unfolding start_loop attempts
reconnect_loop s name cfg m =
    let (ending, m') =
      attempts s name cfg m.next_loop (pos_part cfg.max_retries) 0 cfg.initial_delay
        (start_loop name m) in
    (ending, end_loop m.next_loop m')

unfoldable pub handle_cleaned : Schedule → String → Cleanup × SshManager → Ending × SshManager
unfolding reconnect_loop publish
handle_cleaned s name (nothing_there, m) = (not_started, m)
handle_cleaned s name (panicked, m) = (crashed, m)
handle_cleaned s name (cleaned cfg, m) =
    let m' = publish ssh_disconnected name none m in
    if cfg.enabled then reconnect_loop s name cfg m' else (not_started, m')

-- handleDisconnect
unfoldable pub handle_disconnect : Schedule → String → SshManager → Ending × SshManager
unfolding cleanup_disconnected handle_cleaned
handle_disconnect s name m = handle_cleaned s name (cleanup_disconnected name m)

-- The keep-alive goroutine of the connection at p once KeepAlive has returned: a cancelled context ends
-- it without more.
unfoldable pub keep_alive_ended : Schedule → String → ℕ → SshManager → Ending × SshManager
unfolding handle_disconnect
keep_alive_ended s name p m =
    if (m.conn_at p).cancelled then (not_started, m) else handle_disconnect s name m
