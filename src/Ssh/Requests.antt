-- ===== src/Ssh/Requests.antt =====
-- internal/core/ssh: the manager under any requests, from the hosts that it loads.
use mole_port.Base.{
  All, Bool, Bool-cases, List, Map, Option, String, [], arith, eq_iff, false, inl, inr, no_entries,
  put, refl, some, str_eq, suc, sym, zero, ℕ, ◌+◌, ◌∷◌, ◌≡◌, ◌⊎◌,
}
use mole_port.Core.Enums.{connected, connection_state_eq}
use mole_port.Core.Models.{SshHost}
use mole_port.Core.Errors.{Error, ok}
use mole_port.Core.Settings.{ReconnectConfig, ReconnectOverride}
use mole_port.Ssh.State.{SshManager, new_ssh_manager}
use mole_port.Ssh.Lifecycle.{connect, disconnect, is_connected}
use mole_port.Ssh.Hosts.{index_hosts, load_hosts, set_hosts}
use mole_port.Ssh.Reconnect.{Schedule, handle_disconnect}
use mole_port.Ssh.View.{IsWell, connected_at, name_at}
use mole_port.Ssh.Agreement.{connect-IsWell, disconnect-IsWell}
use mole_port.Ssh.Looping.{IsQuiet, handle_disconnect-IsWell}

-- What is asked of the manager; a drop comes with what happens during its reconnect loop.
pub data SshRequest : Type 0 where
  connecting_to : String → Bool → Option Error → SshRequest
  disconnecting : String → SshRequest
  dropping : String → Schedule → SshRequest

unfoldable pub serve : (String → String) → SshManager → SshRequest → SshManager
serve quote m (connecting_to name interactive dial) = (connect quote name interactive dial m).1
serve quote m (disconnecting name) = disconnect name m
serve quote m (dropping name s) = (handle_disconnect s name m).1

unfoldable pub serve_all : (String → String) → SshManager → List SshRequest → SshManager
unfolding serve
serve_all quote m [] = m
serve_all quote m (r ∷ rs) = serve_all quote (serve quote m r) rs

abbrev pub IsCalm : SshRequest → Type 0
IsCalm (dropping name s) = IsQuiet name s
IsCalm _ = Unit

serve-IsWell :
    (quote : String → String) (r : SshRequest) (m : SshManager)
    → IsCalm r
    → IsWell m
    → IsWell (serve quote m r)
unfolding serve
serve-IsWell quote (connecting_to name interactive dial) m c w =
    connect-IsWell quote name interactive dial m w
serve-IsWell quote (disconnecting name) m c w = disconnect-IsWell name m w
serve-IsWell quote (dropping name s) m c w = handle_disconnect-IsWell s name m c w

-- Under connects, disconnects and drops in any order, with any outcomes of the dials, the state of each
-- known host stays Connected exactly when the manager holds a live connection for it. While a reconnect
-- loop waits and dials, nothing else may connect that host or break the agreement.
pub serve_all-IsWell :
    (quote : String → String) (rs : List SshRequest) (m : SshManager)
    → All IsCalm rs
    → IsWell m
    → IsWell (serve_all quote m rs)
unfolding serve_all
serve_all-IsWell quote [] m c w = w
serve_all-IsWell quote (r ∷ rs) m (c, cs) w =
    serve_all-IsWell quote rs (serve quote m r) cs (serve-IsWell quote r m c w)

index_hosts-from :
    (k : ℕ) (hs : List SshHost) (index : Map ℕ) (a : String) (i : ℕ)
    → index_hosts k hs index a ≡ some i
    → (index a ≡ some i) ⊎ ((j : ℕ) × (i ≡ k + j) × (name_at j hs ≡ some a))
unfolding index_hosts name_at
index_hosts-from k [] index a i e = inl e
index_hosts-from k (h ∷ hs) index a i e =
    elim (index_hosts-from (k + 1) hs (put index h.name k) a i e) [
      | inr (j, at, named) ↦ inr (suc j, omega (arith, at), named)
      | inl e' ↦ elim (Bool-cases (str_eq h.name a)) [
        | inl same ↦ inr (0, ground (arith, e'), ground (arith, eq_iff h.name a))
        | inr differ ↦ inl (ground (arith, e'))
      ]
    ]

connected_at-none :
    (i : ℕ) (hs : List SshHost)
    → All (λ h. connection_state_eq h.state connected ≡ false) hs
    → connected_at i hs ≡ false
unfolding connected_at
connected_at-none i [] off = refl
connected_at-none zero (h ∷ hs) (o, off) = o
connected_at-none (suc i) (h ∷ hs) (o, off) = connected_at-none i hs off

-- A new manager that loads hosts, none of which the parser calls connected, starts in agreement.
pub load_hosts-IsWell :
    (cfg : ReconnectConfig) (host_configs : Map (Option ReconnectOverride)) (hs : List SshHost)
    → All (λ h. connection_state_eq h.state connected ≡ false) hs
    → IsWell (load_hosts (ok hs) (new_ssh_manager cfg host_configs)).1
unfolding load_hosts set_hosts new_ssh_manager is_connected
load_hosts-IsWell cfg host_configs hs off = record {
  named = λ a i h. elim (index_hosts-from 0 hs no_entries a i h) [
    | inl e ↦ ground arith
    | inr (j, at, named) ↦ ground (arith, named)
  ];
  allocated = λ a p h. ground arith;
  unshared = λ a b p h k. ground arith;
  agrees = λ a i h. sym (connected_at-none i hs off);
}
