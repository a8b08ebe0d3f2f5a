-- ===== src/Handlers/Differences.antt =====
-- internal/ipc/handler/handler_host.go: what a reload reports.
use mole_port.Base.{
  Bool, Bool-cases, In, List, Map, Option, String, [], ap, ap₂, arith, eq_iff, false, if◌then◌else◌,
  inl, inr, length, map, no_entries, none, not, refl, some, str_eq, subst, suc, sym, true, ℕ, ◌↔◌,
  ◌∷◌, ◌≡◌, ◌⊎◌,
}
use mole_port.Core.Enums.{ConnectionState}
use mole_port.Core.Models.{SshHost}
use mole_port.Handlers.Hosts.{
  HostReloadResult, host_reload, missing_names, name_set, reload_answer, reload_result,
}
use mole_port.Core.Errors.{ok}
use mole_port.Config.Validation.{Checked, accepted}
use mole_port.Ssh.State.{SshManager}
use mole_port.Ssh.Hosts.{keep_state, old_states, reload_hosts}

-- The names of hosts
abbrev pub names : List SshHost → List String
names [] = []
names (h ∷ hs) = h.name ∷ names hs

name_set-In : (hs : List SshHost) (n : String) → name_set hs n ≡ true → In n (names hs)
unfolding name_set
name_set-In [] n e = ground arith
name_set-In (h ∷ hs) n e = elim (Bool-cases (str_eq h.name n)) [
  | inl same ↦ inl (ground (arith, eq_iff h.name n))
  | inr differ ↦ inr (name_set-In hs n (ground arith))
]

In-name_set : (hs : List SshHost) (n : String) → In n (names hs) → name_set hs n ≡ true
unfolding name_set
In-name_set [] n i = elim i [ ]
In-name_set (h ∷ hs) n (inl e) = ground (arith, eq_iff h.name n)
In-name_set (h ∷ hs) n (inr i) = ground (arith, In-name_set hs n i)

visited :
    (b : Bool) (x : String) (rest : List String) (n : String)
    → In n (if not b then x ∷ rest else rest)
    → ((b ≡ false) × (n ≡ x)) ⊎ In n rest
visited true x rest n i = inr i
visited false x rest n (inl same) = inl (refl, same)
visited false x rest n (inr i) = inr i

-- What a loop collects, of the names that it visits
missing_names-In :
    (known : String → Bool) (hs : List SshHost) (n : String)
    → In n (missing_names known hs)
    → In n (names hs) × (known n ≡ false)
unfolding missing_names
missing_names-In known [] n i = elim i [ ]
missing_names-In known (h ∷ hs) n i =
    elim (visited (known h.name) h.name (missing_names known hs) n i) [
      | inl (out, same) ↦ (inl same, subst (λ k. known k ≡ false) (sym same) out)
      | inr j ↦ let (at, out) = missing_names-In known hs n j in (inr at, out)
    ]

In-missing_names :
    (known : String → Bool) (hs : List SshHost) (n : String)
    → In n (names hs)
    → known n ≡ false
    → In n (missing_names known hs)
unfolding missing_names
In-missing_names known [] n i out = elim i [ ]
In-missing_names known (h ∷ hs) n (inl e) out = rw (subst (λ k. known k ≡ false) e out) (inl e)
In-missing_names known (h ∷ hs) n (inr i) out = elim (Bool-cases (known h.name)) [
  | inl in_ ↦ rw (in_) (In-missing_names known hs n i out)
  | inr out_ ↦ rw (out_) (inr (In-missing_names known hs n i out))
]

not_in : (hs : List SshHost) (n : String) → name_set hs n ≡ false → In n (names hs) → ⊥
not_in hs n out i = ground (arith, In-name_set hs n i)

out_of : (hs : List SshHost) (n : String) → (In n (names hs) → ⊥) → name_set hs n ≡ false
out_of hs n out = elim (Bool-cases (name_set hs n)) [
  | inl in_ ↦ elim (out (name_set-In hs n in_)) [ ]
  | inr out_ ↦ out_
]

-- The names that one list of hosts has and another has not
missing_names_iff :
    (old new : List SshHost) (n : String)
    → In n (missing_names (name_set old) new) ↔ (In n (names new) × (In n (names old) → ⊥))
missing_names_iff old new n = (
  (λ i. let (at, out) = missing_names-In (name_set old) new n i in (at, not_in old n out)),
  (λ both. In-missing_names (name_set old) new n both.0 (out_of old n both.1)),
)

kept-name :
    (h : SshHost) (o : Option (ConnectionState × ℕ))
    → (elim o as (λ x. SshHost) [
      | none ↦ h
      | some (state, count) ↦ record h { state = state; active_forward_count = count }
    ]).name
      ≡ h.name
kept-name h none = refl
kept-name h (some (state, count)) = refl

keep_state-names :
    (old : Map (ConnectionState × ℕ)) (hs : List SshHost)
    → names (map (keep_state old) hs) ≡ names hs
unfolding keep_state
keep_state-names old [] = refl
keep_state-names old (h ∷ hs) =
    ap₂ (λ (n : String) (ns : List String). n ∷ ns) (kept-name h (old h.name))
      (keep_state-names old hs)

keep_state-length :
    (old : Map (ConnectionState × ℕ)) (hs : List SshHost)
    → length (map (keep_state old) hs) ≡ length hs
keep_state-length old [] = refl
keep_state-length old (h ∷ hs) = ap suc (keep_state-length old hs)

-- An answer that gives the number of hosts and the differences to those of the manager
unfoldable pub IsDifference : List SshHost → SshManager → Checked HostReloadResult → Type 0
IsDifference hosts m answer =
    (r : HostReloadResult) × (answer ≡ accepted r)
    × (r.total ≡ length hosts)
    × ((n : String) → In n r.added ↔ (In n (names hosts) × (In n (names m.hosts) → ⊥)))
    × ((n : String) → In n r.removed ↔ (In n (names m.hosts) × (In n (names hosts) → ⊥)))

-- What host.reload answers, for an SSH configuration that is parsed: the number of hosts in it; as added, just the names
-- that it has and the manager did not have; and as removed, just those that the manager had and it has not.
pub host_reload-IsDifference :
    (quote : String → String) (hosts : List SshHost) (m : SshManager)
    → IsDifference hosts m (host_reload quote (ok hosts) m).0
unfolding host_reload reload_answer reload_hosts reload_result IsDifference
host_reload-IsDifference quote hosts m =
    let kept = map (keep_state (old_states m.hosts no_entries)) hosts in
    let same = keep_state-names (old_states m.hosts no_entries) hosts in
    (
      reload_result m.hosts kept,
      refl,
      keep_state-length (old_states m.hosts no_entries) hosts,
      (λ n.
          subst
            (λ ns.
              In n (missing_names (name_set m.hosts) kept) ↔ (In n ns × (In n (names m.hosts) → ⊥)))
            same (missing_names_iff m.hosts kept n)),
      (λ n.
          subst
            (λ ns.
              In n (missing_names (name_set kept) m.hosts) ↔ (In n (names m.hosts) × (In n ns → ⊥)))
            same (missing_names_iff kept m.hosts n)),
    )
