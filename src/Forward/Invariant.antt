-- ===== src/Forward/Invariant.antt =====
-- What holds of the forward manager of internal/core/forward between its locked sections. Each
-- section is taken by itself in the child modules, the operations and their interleavings after it.
pub mod Starting
pub mod Stopping
pub mod Reconnecting
pub mod Naming
use mole_port.Base.{Distinct, In, String, false, none, some, ℕ, ◌<◌, ◌≡◌, ◌≢◌}
use mole_port.Core.Enums.{active, session_reconnecting}
use mole_port.Core.Models.{ForwardRule}
use mole_port.Forward.State.{Manager, closed_listening, open_listening}

-- The map `active` against the heap.
pub record IsWired (m : Manager) : Type 0 where
  pub allocated : (a : String) (p : ℕ) → m.active a ≡ some p → p < m.next_ref
  pub apart : (a b : String) (p : ℕ) → m.active a ≡ some p → m.active b ≡ some p → a ≡ b
  pub named :
      (a : String) (p : ℕ)
      → m.active a ≡ some p
      → (m.heap p).starting ≡ false
      → (m.heap p).session.rule.name ≡ a
  pub listening :
      (a : String) (p : ℕ)
      → m.active a ≡ some p
      → (m.heap p).session.status ≡ active
      → (m.heap p).listener ≡ open_listening
  pub resting :
      (a : String) (p : ℕ)
      → m.active a ≡ some p
      → (m.heap p).session.status ≡ session_reconnecting
      → (m.heap p).listener ≡ closed_listening

-- A session that was taken down: it was allocated, is not active and listens no more.
pub record Rests (m : Manager) (p : ℕ) : Type 0 where
  pub old : p < m.next_ref
  pub inactive : (m.heap p).session.status ≢ active
  pub quiet : (m.heap p).listener ≡ closed_listening
  pub settled : (m.heap p).starting ≡ false

-- No listener is open that the map has lost: each can still be found, and so closed, by its name.
abbrev pub NoLeak : Manager → Type 0
NoLeak m =
    (p : ℕ)
    → p < m.next_ref
    → (m.heap p).listener ≡ open_listening
    → ((m.heap p).starting ≡ false) × (m.active (m.heap p).session.rule.name ≡ some p)

-- Only names of rules are active.
abbrev pub OnlyRules : Manager → Type 0
OnlyRules m = (a : String) → m.active a ≢ none → m.rules a ≢ none

-- The map `rules` against the order of addition.
pub record IsOrdered (m : Manager) : Type 0 where
  pub own_name : (a : String) (r : ForwardRule) → m.rules a ≡ some r → r.name ≡ a
  pub listed : (a : String) → m.rules a ≢ none → In a m.rule_order
  pub known : (a : String) → In a m.rule_order → m.rules a ≢ none
  pub once : Distinct m.rule_order

pub record IsValid (m : Manager) : Type 0 where
  pub wired : IsWired m
  pub no_leak : NoLeak m
  pub only_rules : OnlyRules m
  pub ordered : IsOrdered m
