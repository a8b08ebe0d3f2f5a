-- ===== src/Ssh/Reloading.antt =====
-- internal/core/ssh/hosts.go: a host that leaves the configuration and returns.
use mole_port.Base.{
  All, List, Map, Option-cases, String, [], ap, arith, get_elem?, inl, inr, length, map, no_entries,
  none, put_ne, put_self, refl, some, some-none, sym, true, ℕ, ◌++◌, ◌+◌, ◌∙◌, ◌∷◌, ◌≡◌, ◌≢◌,
}
use mole_port.Core.Models.{SshHost}
use mole_port.Core.Errors.{ok}
use mole_port.Ssh.State.{SshManager}
use mole_port.Ssh.Hosts.{get_host, index_hosts, keep_state, old_states, reload_hosts, set_hosts}
use mole_port.Ssh.Lifecycle.{already_there, connect_reserve, is_busy, is_connected}
use mole_port.Core.Enums.{
  ConnectionState, connected, connecting, connection_error, connection_state_eq, disconnected,
  pending_auth, reconnecting,
}

-- The configuration is read twice.
unfoldable pub reload_twice : List SshHost → List SshHost → SshManager → SshManager
unfolding reload_hosts
reload_twice first second m = (reload_hosts (ok second) (reload_hosts (ok first) m).1).1

-- No host of the list has the name.
abbrev pub IsAbsent : String → List SshHost → Type 0
IsAbsent n hosts = All (λ (h : SshHost). h.name ≢ n) hosts

kept-name : (old : Map (ConnectionState × ℕ)) (h : SshHost) → (keep_state old h).name ≡ h.name
unfolding keep_state
kept-name old h = elim (Option-cases (old h.name)) [
  | inl e ↦ rw (keep_state, e) refl
  | inr ((state, count), e) ↦ rw (keep_state, e) refl
]

kept-IsAbsent :
    (old : Map (ConnectionState × ℕ)) (n : String) (hosts : List SshHost)
    → IsAbsent n hosts
    → IsAbsent n (map (keep_state old) hosts)
kept-IsAbsent old n [] out = tt
kept-IsAbsent old n (h ∷ hosts) (ne, out) =
    ((λ e. ne (sym (kept-name old h) ∙ e)), kept-IsAbsent old n hosts out)

old_states-absent :
    (n : String) (hosts : List SshHost) (old : Map (ConnectionState × ℕ))
    → IsAbsent n hosts
    → old_states hosts old n ≡ old n
unfolding old_states
old_states-absent n [] old out = refl
old_states-absent n (h ∷ hosts) old (ne, out) =
    old_states-absent n hosts _ out ∙ put_ne old h.name n (h.state, h.active_forward_count) ne

index_hosts-absent :
    (n : String) (i : ℕ) (hosts : List SshHost) (index : Map ℕ)
    → IsAbsent n hosts
    → index_hosts i hosts index n ≡ index n
unfolding index_hosts
index_hosts-absent n i [] index out = refl
index_hosts-absent n i (h ∷ hosts) index (ne, out) =
    index_hosts-absent n (i + 1) hosts _ out ∙ put_ne index h.name n i ne

-- The last host of a name is the one in the index.
index_hosts-last :
    (h : SshHost) (i : ℕ) (before after : List SshHost) (index : Map ℕ)
    → IsAbsent h.name after
    → index_hosts i (before ++ (h ∷ after)) index h.name ≡ some (i + length before)
unfolding index_hosts
index_hosts-last h i [] after index out =
    index_hosts-absent h.name (i + 1) after _ out ∙ put_self index h.name i ∙ ap some (omega arith)
index_hosts-last h i (b ∷ before) after index out =
    index_hosts-last h (i + 1) before after _ out ∙ ap some (omega arith)

get_elem?-at :
    (h : SshHost) (before after : List SshHost)
    → get_elem? (before ++ (h ∷ after)) (length before) ≡ some h
get_elem?-at h [] after = refl
get_elem?-at h (b ∷ before) after = get_elem?-at h before after

map-append :
    (f : SshHost → SshHost) (xs ys : List SshHost) → map f (xs ++ ys) ≡ map f xs ++ map f ys
map-append f [] ys = refl
map-append f (x ∷ xs) ys = ap (λ l. f x ∷ l) (map-append f xs ys)

zero_add : (n : ℕ) → 0 + n ≡ n
zero_add n = omega arith

set_hosts-get_host :
    (h : SshHost) (before after : List SshHost) (m : SshManager)
    → IsAbsent h.name after
    → get_host h.name (set_hosts (before ++ (h ∷ after)) m) ≡ ok h
unfolding get_host set_hosts
set_hosts-get_host h before after m out =
    rw
      (
        get_host,
        index_hosts-last h 0 before after no_entries out ∙ ap some (zero_add (length before)),
        get_elem?-at h before after,
      )
      refl

set_hosts-known :
    (h : SshHost) (before after : List SshHost) (m : SshManager)
    → IsAbsent h.name after
    → (set_hosts (before ++ (h ∷ after)) m).hosts_map h.name ≢ none
unfolding set_hosts
set_hosts-known h before after m out e =
    some-none (0 + length before) (sym (index_hosts-last h 0 before after no_entries out) ∙ e)

-- A host that was not in the configuration before is taken as the parser gives it.
reload_hosts-returned :
    (h : SshHost) (before after : List SshHost) (m : SshManager)
    → IsAbsent h.name m.hosts
    → let kept = map (keep_state (old_states m.hosts no_entries)) in
      (reload_hosts (ok (before ++ (h ∷ after))) m).1
      ≡ set_hosts (kept before ++ (h ∷ kept after)) m
unfolding reload_hosts keep_state
reload_hosts-returned h before after m out =
    let old = old_states m.hosts no_entries in
    ap (λ hosts. set_hosts hosts m)
      (map-append (keep_state old) before (h ∷ after)
        ∙ ap (λ g. map (keep_state old) before ++ (g ∷ map (keep_state old) after))
            (rw (keep_state, old_states-absent h.name m.hosts no_entries out) refl))

busy-connected : (s : ConnectionState) → connection_state_eq s connected ≡ true → is_busy s ≡ true
busy-connected connected e = refl
busy-connected connecting e = refl
busy-connected disconnected e = ground (arith, e)
busy-connected reconnecting e = ground (arith, e)
busy-connected pending_auth e = ground (arith, e)
busy-connected connection_error e = ground (arith, e)

connect_reserve-live :
    (h : SshHost) (m : SshManager)
    → m.hosts_map h.name ≢ none
    → is_connected h.name m ≡ true
    → connect_reserve h.name m ≡ (already_there, m)
unfolding connect_reserve is_connected
connect_reserve-live h m known live = elim (Option-cases (m.hosts_map h.name)) [
  | inl e ↦ elim (known e) [ ]
  | inr (i, e) ↦ elim (Option-cases (m.conns h.name)) [
    | inl c ↦ ground (arith, live)
    | inr (p, c) ↦
        rw (connect_reserve, e, c, busy-connected (m.conn_at p).state (ground (arith, live))) refl
  ]
]

-- A host that is connected, is not in the configuration at one reload, and is in it at the next, is listed in the
-- state that the parser gives it; its connection is still there, so that a connect does nothing. Of
-- several hosts of one name it is the last that is listed.
pub reload_twice-forgets :
    (first before after : List SshHost) (h : SshHost) (m : SshManager)
    → IsAbsent h.name first
    → IsAbsent h.name after
    → is_connected h.name m ≡ true
    → let m' = reload_twice first (before ++ (h ∷ after)) m in
      (get_host h.name m' ≡ ok h) × (connect_reserve h.name m' ≡ (already_there, m'))
unfolding reload_twice reload_hosts set_hosts is_connected
reload_twice-forgets first before after h m out last live =
    let old = old_states m.hosts no_entries in
    let m1 = (reload_hosts (ok first) m).1 in
    let kept = map (keep_state (old_states m1.hosts no_entries)) in
    let is = reload_hosts-returned h before after m1 (kept-IsAbsent old h.name first out) in
    let still = kept-IsAbsent (old_states m1.hosts no_entries) h.name after last in
    (
      ap (λ n. get_host h.name n) is ∙ set_hosts-get_host h (kept before) (kept after) m1 still,
      connect_reserve-live h (reload_twice first (before ++ (h ∷ after)) m)
          (λ e.
            set_hosts-known h (kept before) (kept after) m1 still
              (ap (λ (n : SshManager). n.hosts_map h.name) (sym is) ∙ e))
          live,
    )
