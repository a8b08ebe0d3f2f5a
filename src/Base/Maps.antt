-- ===== src/Base/Maps.antt =====
-- Go's maps with string keys, as functions from a key to its entry. Nothing here lists the keys: a
-- `range` loop over a map takes the order of its visits as an argument, as Go leaves that open.
use Prim.Native.String.{String}
use mathlib.Core.Path.{◌≡◌}
use mathlib.Core.Logic.{◌≢◌, ◌⊎◌, inl, inr}
use mathlib.Core.Bool.{false}
use mathlib.Core.Option.{Option, none, some}
use native.Mathlib.Omega.{arith}
use text.Mathlib.Text.{◌==◌}
use text.Mathlib.TextEquality.{eq_iff}
use mole_port.Base.Tests.{Bool-cases, some_injective, if◌then◌else◌}

abbrev pub Map {ℓ} : Type ℓ → Type ℓ
Map V = String → Option V

differ_same : (k j : String) → (k == j) ≡ false → k ≡ j → ⊥
differ_same k j d e = ground (arith, eq_iff k j)

module _ {ℓ} {V : Type ℓ} where
  -- make(map[string]V)
  abbrev pub no_entries : Map V
  no_entries k = none

  -- m[k] = v
  abbrev pub put : Map V → String → V → Map V
  put m k v j = if k == j then some v else m j

  -- delete(m, k)
  abbrev pub delete : Map V → String → Map V
  delete m k j = if k == j then none else m j

  pub put_self : (m : Map V) (k : String) (v : V) → put m k v k ≡ some v
  put_self m k v = ground (arith, eq_iff k k)

  pub put_ne : (m : Map V) (k j : String) (v : V) → k ≢ j → put m k v j ≡ m j
  put_ne m k j v h = ground (arith, eq_iff k j)

  pub delete_self : (m : Map V) (k : String) → delete m k k ≡ none
  delete_self m k = ground (arith, eq_iff k k)

  pub delete_ne : (m : Map V) (k j : String) → k ≢ j → delete m k j ≡ m j
  delete_ne m k j h = ground (arith, eq_iff k j)

  -- Where an entry of a map comes from, after an assignment and after a deletion
  pub put-some :
      (m : Map V) (k j : String) (v w : V)
      → put m k v j ≡ some w
      → ((k ≡ j) × (v ≡ w)) ⊎ ((k ≢ j) × (m j ≡ some w))
  put-some m k j v w e = elim (Bool-cases (k == j)) [
    | inl same ↦ inl (ground (arith, eq_iff k j), some_injective v w (ground (arith, same)))
    | inr differ ↦ inr ((λ q. elim (differ_same k j differ q) [ ]), ground (arith, differ))
  ]

  pub delete-some : (m : Map V) (k j : String) (w : V) → delete m k j ≡ some w → m j ≡ some w
  delete-some m k j w e = elim (Bool-cases (k == j)) [
    | inl same ↦ ground (arith, same)
    | inr differ ↦ ground (arith, differ)
  ]
