-- ===== src/Ssh/View.antt =====
-- internal/core/ssh: the two places that tell of a connection, the host's state and the connections.
use mole_port.Base.{
  Bool, Bool-cases, List, Option, Option-cases, String, [], ap, arith, eq_iff, false, inl, inr,
  none, refl, some, str_eq, subst, suc, sym, zero, ℕ, ◌<◌, ◌∙◌, ◌∷◌, ◌≡◌, ◌≢◌,
}
use mole_port.Core.Enums.{ConnectionState, connected, connection_state_eq}
use mole_port.Core.Models.{SshHost}
use mole_port.Core.Events.{SshEventType}
use mole_port.Core.Errors.{Error}
use mole_port.Ssh.State.{SshManager, publish, set_host_state, set_state_at}
use mole_port.Ssh.Lifecycle.{is_connected}

-- The name and the connectedness of the host at an index.
unfoldable pub name_at : ℕ → List SshHost → Option String
name_at i [] = none
name_at zero (h ∷ hs) = some h.name
name_at (suc i) (h ∷ hs) = name_at i hs

unfoldable pub connected_at : ℕ → List SshHost → Bool
connected_at i [] = false
connected_at zero (h ∷ hs) = connection_state_eq h.state connected
connected_at (suc i) (h ∷ hs) = connected_at i hs

name_at-set_state_at :
    (i j : ℕ) (s : ConnectionState) (hs : List SshHost)
    → name_at i (set_state_at j s hs) ≡ name_at i hs
unfolding name_at set_state_at
name_at-set_state_at i j s [] = refl
name_at-set_state_at zero zero s (h ∷ hs) = refl
name_at-set_state_at (suc i) zero s (h ∷ hs) = refl
name_at-set_state_at zero (suc j) s (h ∷ hs) = refl
name_at-set_state_at (suc i) (suc j) s (h ∷ hs) = name_at-set_state_at i j s hs

connected_at-set_same :
    (i : ℕ) (s : ConnectionState) (hs : List SshHost) (a : String)
    → name_at i hs ≡ some a
    → connected_at i (set_state_at i s hs) ≡ connection_state_eq s connected
unfolding name_at connected_at set_state_at
connected_at-set_same i s [] a e = ground arith
connected_at-set_same zero s (h ∷ hs) a e = refl
connected_at-set_same (suc i) s (h ∷ hs) a e = connected_at-set_same i s hs a e

connected_at-set_other :
    (i j : ℕ) (s : ConnectionState) (hs : List SshHost)
    → i ≢ j
    → connected_at i (set_state_at j s hs) ≡ connected_at i hs
unfolding connected_at set_state_at
connected_at-set_other i j s [] n = refl
connected_at-set_other zero zero s (h ∷ hs) n = elim (n refl) [ ]
connected_at-set_other (suc i) zero s (h ∷ hs) n = refl
connected_at-set_other zero (suc j) s (h ∷ hs) n = refl
connected_at-set_other (suc i) (suc j) s (h ∷ hs) n =
    connected_at-set_other i j s hs (λ e. n (ap suc e))

-- The invariant, where the host `name` is left out of the agreement.
pub record IsWellBut (name : String) (m : SshManager) : Type 0 where
  pub named : (a : String) (i : ℕ) → m.hosts_map a ≡ some i → name_at i m.hosts ≡ some a
  pub allocated : (a : String) (p : ℕ) → m.conns a ≡ some p → p < m.next_conn
  pub unshared : (a b : String) (p : ℕ) → m.conns a ≡ some p → m.conns b ≡ some p → a ≡ b
  pub agrees_but :
      (a : String) (i : ℕ)
      → name ≢ a
      → m.hosts_map a ≡ some i
      → is_connected a m ≡ connected_at i m.hosts

-- Each known host is in the state Connected exactly when the manager has a live connection for it.
pub record IsWell (m : SshManager) : Type 0 where
  pub named : (a : String) (i : ℕ) → m.hosts_map a ≡ some i → name_at i m.hosts ≡ some a
  pub allocated : (a : String) (p : ℕ) → m.conns a ≡ some p → p < m.next_conn
  pub unshared : (a b : String) (p : ℕ) → m.conns a ≡ some p → m.conns b ≡ some p → a ≡ b
  pub agrees :
      (a : String) (i : ℕ) → m.hosts_map a ≡ some i → is_connected a m ≡ connected_at i m.hosts

pub but : (name : String) (m : SshManager) → IsWell m → IsWellBut name m
but name m w = record {
  named = w.named;
  allocated = w.allocated;
  unshared = w.unshared;
  agrees_but = λ a i n e. w.agrees a i e;
}

set_state_at-agrees :
    (name a : String) (s : ConnectionState) (m : SshManager) (i j : ℕ)
    → IsWellBut name m
    → m.hosts_map name ≡ some i
    → m.hosts_map a ≡ some j
    → is_connected name m ≡ connection_state_eq s connected
    → is_connected a m ≡ connected_at j (set_state_at i s m.hosts)
set_state_at-agrees name a s m i j w known h e = elim (Bool-cases (str_eq name a)) [
  | inl same ↦
      let path : name ≡ a = ground (arith, eq_iff name a) in
      let at : i ≡ j = ground (arith, ap m.hosts_map path) in
      subst (λ b. is_connected b m ≡ connection_state_eq s connected) path e
      ∙ sym (
          ap (λ k. connected_at k (set_state_at i s m.hosts)) (sym at)
          ∙ connected_at-set_same i s m.hosts name (w.named name i known))
  | inr differ ↦
      let apart : name ≢ a = λ path. ground (arith, eq_iff name a) in
      w.agrees_but a j apart h
      ∙ sym (
          connected_at-set_other j i s m.hosts (λ at.
            ground
              (arith, apart, w.named a j h, w.named name i known, ap (λ k. name_at k m.hosts) at)))
]

set_state_at-IsWell :
    (name : String) (s : ConnectionState) (m : SshManager) (i : ℕ)
    → IsWellBut name m
    → m.hosts_map name ≡ some i
    → is_connected name m ≡ connection_state_eq s connected
    → IsWell (record m { hosts = set_state_at i s m.hosts })
unfolding is_connected
set_state_at-IsWell name s m i w known e = record {
  named = λ a j h. name_at-set_state_at j i s m.hosts ∙ w.named a j h;
  allocated = w.allocated;
  unshared = w.unshared;
  agrees = λ a j h. set_state_at-agrees name a s m i j w known h e;
}

unknown-IsWell :
    (name : String) (m : SshManager) → IsWellBut name m → m.hosts_map name ≡ none → IsWell m
unknown-IsWell name m w u = record {
  named = w.named;
  allocated = w.allocated;
  unshared = w.unshared;
  agrees = λ a i h. w.agrees_but a i (λ path. ground (arith, ap m.hosts_map path)) h;
}

-- The state that a host gets, once the manager's connections already say the same.
pub set_host_state-IsWell :
    (name : String) (s : ConnectionState) (m : SshManager)
    → IsWellBut name m
    → is_connected name m ≡ connection_state_eq s connected
    → IsWell (set_host_state name s m)
unfolding set_host_state
set_host_state-IsWell name s m w e = elim (Option-cases (m.hosts_map name)) [
  | inl h ↦ rw (h, set_host_state) (unknown-IsWell name m w h)
  | inr (i, h) ↦ rw (h, set_host_state) (set_state_at-IsWell name s m i w h e)
]

pub publish-IsWell :
    (type : SshEventType) (host : String) (error : Option Error) (m : SshManager)
    → IsWell m
    → IsWell (publish type host error m)
unfolding publish is_connected
publish-IsWell type host error m w = record {
  named = w.named;
  allocated = w.allocated;
  unshared = w.unshared;
  agrees = w.agrees;
}
