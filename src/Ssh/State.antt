-- ===== src/Ssh/State.antt =====
-- internal/core/ssh/manager.go: the state of the manager. Connections and reconnect loops are known by
-- their addresses, since the code compares and keeps them while the lock is free.
use mole_port.Base.{
  Bool, List, Map, Option, String, [], false, if◌then◌else◌, ltb_ℤ, no_entries, none, pos, some,
  suc, true, zero, ℕ, ℤ, ◌*◌, ◌==◌, ◌∷◌,
}
use mole_port.Core.Enums.{ConnectionState, connected, connecting}
use mole_port.Core.Models.{SshHost}
use mole_port.Core.Settings.{ReconnectConfig, ReconnectOverride, second}
use mole_port.Core.Errors.{Error}
use mole_port.Core.Events.{SshEvent, SshEventType, emit}

-- hostConnection: `dialed` tells a connection from the placeholder, whose `conn` and `cancel` are nil.
pub record HostConnection : Type 0 where
  pub dialed : Bool
  pub state : ConnectionState
  pub cancelled : Bool
  pub conn_closed : Bool

abbrev pub connecting_placeholder : HostConnection
connecting_placeholder = record {
  dialed = false;
  state = connecting;
  cancelled = false;
  conn_closed = false;
}

abbrev pub connection : HostConnection
connection = record { dialed = true; state = connected; cancelled = false; conn_closed = false }

-- sshManager: `loop_cancelled` tells of each reconnect loop whether its context is.
pub record SshManager : Type 0 where
  pub reconnect_cfg : ReconnectConfig
  pub host_configs : Map (Option ReconnectOverride)
  pub hosts : List SshHost
  pub hosts_map : Map ℕ
  pub conns : Map ℕ
  pub conn_at : ℕ → HostConnection
  pub next_conn : ℕ
  pub reconnect_cancels : Map ℕ
  pub loop_cancelled : ℕ → Bool
  pub next_loop : ℕ
  pub events : List (List SshEvent)
  pub closed : Bool

-- NewSSHManager
unfoldable pub new_ssh_manager : ReconnectConfig → Map (Option ReconnectOverride) → SshManager
new_ssh_manager cfg host_configs = record {
  reconnect_cfg = cfg;
  host_configs = host_configs;
  hosts = [];
  hosts_map = no_entries;
  conns = no_entries;
  conn_at = λ p. connecting_placeholder;
  next_conn = 0;
  reconnect_cancels = no_entries;
  loop_cancelled = λ p. false;
  next_loop = 0;
  events = [];
  closed = false;
}

-- *p = v
abbrev pub store {ℓ} : {A : Type ℓ} → (ℕ → A) → ℕ → A → ℕ → A
store heap p v q = if p == q then v else heap q

-- m.events.Emit
unfoldable pub publish : SshEventType → String → Option Error → SshManager → SshManager
unfolding emit
publish type host error m = record m {
  events = emit m.events (record { type = type; host_name = host; error = error });
}

-- keepAliveInterval
unfoldable pub keep_alive_interval : SshManager → ℤ
keep_alive_interval m =
    if ltb_ℤ (pos 0) m.reconnect_cfg.keep_alive_interval
    then m.reconnect_cfg.keep_alive_interval
    else pos (30 * second)

-- m.hosts[i].State = state
unfoldable pub set_state_at : ℕ → ConnectionState → List SshHost → List SshHost
set_state_at i state [] = []
set_state_at zero state (h ∷ hs) = record h { state = state } ∷ hs
set_state_at (suc i) state (h ∷ hs) = h ∷ set_state_at i state hs

-- setHostState, and the same assignment inside other locked sections
unfoldable pub set_host_state : String → ConnectionState → SshManager → SshManager
unfolding set_state_at
set_host_state name state m = elim (m.hosts_map name) [
  | none ↦ m
  | some i ↦ record m { hosts = set_state_at i state m.hosts }
]
