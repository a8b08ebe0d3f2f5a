-- ===== src/Ssh/Hosts.antt =====
-- internal/core/ssh/hosts.go: the hosts of the SSH configuration. The parser is a parameter.
use mole_port.Base.{
  Bool, List, Map, String, [], get_elem?, map, no_entries, none, put, select, some, ℕ, ◌+◌, ◌∷◌,
}
use mole_port.Core.Enums.{ConnectionState, connection_state_eq, pending_auth}
use mole_port.Core.Models.{SshHost}
use mole_port.Core.Errors.{Result, err, not_found, ok, other, wrap}
use mole_port.Ssh.State.{SshManager}

-- The loop that fills `hostsMap`: a later host of the same name wins.
unfoldable pub index_hosts : ℕ → List SshHost → Map ℕ → Map ℕ
index_hosts i [] index = index
index_hosts i (h ∷ hs) index = index_hosts (i + 1) hs (put index h.name i)

unfoldable pub set_hosts : List SshHost → SshManager → SshManager
unfolding index_hosts
set_hosts hosts m = record m { hosts = hosts; hosts_map = index_hosts 0 hosts no_entries }

-- LoadHosts: the argument is what the parser returns
unfoldable pub load_hosts : Result (List SshHost) → SshManager → Result (List SshHost) × SshManager
unfolding set_hosts
load_hosts (err e) m = (err (wrap "failed to parse SSH config" e), m)
load_hosts (ok hosts) m = (ok hosts, set_hosts hosts m)

-- The loops of ReloadHosts over the old hosts, for states and forward counts at once.
unfoldable pub old_states : List SshHost → Map (ConnectionState × ℕ) → Map (ConnectionState × ℕ)
old_states [] old = old
old_states (h ∷ hs) old = old_states hs (put old h.name (h.state, h.active_forward_count))

unfoldable pub keep_state : Map (ConnectionState × ℕ) → SshHost → SshHost
keep_state old h = elim (old h.name) [
  | none ↦ h
  | some (state, count) ↦ record h { state = state; active_forward_count = count }
]

-- ReloadHosts
unfoldable pub reload_hosts :
    Result (List SshHost) → SshManager → Result (List SshHost) × SshManager
unfolding set_hosts old_states keep_state
reload_hosts (err e) m = (err (wrap "failed to parse SSH config" e), m)
reload_hosts (ok hosts) m =
    let kept = map (keep_state (old_states m.hosts no_entries)) hosts in (ok kept, set_hosts kept m)

-- GetHost
unfoldable pub get_host : String → SshManager → Result SshHost
get_host name m = elim (m.hosts_map name) [
  | none ↦ err (not_found "host" name)
  | some i ↦ elim (get_elem? m.hosts i) [ none ↦ err (other "index out of range") | some h ↦ ok h ]
]

abbrev is_pending : SshHost → Bool
is_pending h = connection_state_eq h.state pending_auth

-- GetPendingAuthHosts
unfoldable pub get_pending_auth_hosts : SshManager → List String
get_pending_auth_hosts m = map (λ h. h.name) (select is_pending m.hosts)
