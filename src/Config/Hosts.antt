-- ===== src/Config/Hosts.antt =====
-- internal/ipc/handler/config/handler.go: applyHosts on shared objects against its effect on plain values.
use mole_port.Base.{
  Option, Option-cases, String, arith, eq_iff, eq_refl, inl, inr, none, refl, some, subst, ℕ, ◌<◌,
  ◌≡◌, ◌≢◌,
}
use mole_port.Core.Settings.{ReconnectOverride, no_override}
use mole_port.Config.Memory.{Memory, delete_host, host_view, put_host}
use mole_port.Config.Params.{HostConfigUpdateInfo, ReconnectUpdateInfo}
use mole_port.Config.Validation.{Durations}
use mole_port.Config.Fields.{apply_override-expected, expected_override}
use mole_port.Config.Applying.{
  apply_host, apply_override, ensure_override, host_config, update_override,
}

abbrev pub override_or_zero : Option (Option ReconnectOverride) → ReconnectOverride
override_or_zero none = no_override
override_or_zero (some none) = no_override
override_or_zero (some (some o)) = o

abbrev pub value_or_zero : Option (Option ReconnectOverride) → Option ReconnectOverride
value_or_zero none = none
value_or_zero (some o) = o

-- What an update makes of the entry of one name, where nothing is shared.
unfoldable pub updated_entry :
    String
    → Option (Option HostConfigUpdateInfo)
    → Durations
    → Option (Option ReconnectOverride)
    → Option (Option ReconnectOverride)
updated_entry name none ds old = old
updated_entry name (some none) ds old = none
updated_entry name (some (some u)) ds old = elim u.reconnect [
  | none ↦ some (value_or_zero old)
  | some r ↦ some (some (expected_override name r ds (override_or_zero old)))
]

abbrev pub pointer_at : Memory → ℕ → String → Option ℕ
pointer_at mem p name = elim (mem.map_at p name) [ none ↦ none | some hc ↦ hc.reconnect ]

-- The entries of the map at p have overrides of their own.
pub record IsSeparate (p : ℕ) (mem : Memory) : Type 0 where
  pub allocated : (a : String) (q : ℕ) → pointer_at mem p a ≡ some q → q < mem.next_override
  pub unshared :
      (a b : String) (q : ℕ) → pointer_at mem p a ≡ some q → pointer_at mem p b ≡ some q → a ≡ b

-- What one turn of the loop does to the map at p.
pub record IsTurn (p : ℕ) (name : String) (entry : Option (Option ReconnectOverride))
    (mem mem' : Memory) : Type 0 where
  pub separate : IsSeparate p mem'
  pub same : host_view mem' (some p) name ≡ entry
  pub others : (b : String) → name ≢ b → host_view mem' (some p) b ≡ host_view mem (some p) b

delete_host-IsTurn :
    (p : ℕ) (name : String) (mem : Memory)
    → IsSeparate p mem
    → IsTurn p name none mem (delete_host p name mem)
unfolding host_view
delete_host-IsTurn p name mem w = record {
  separate = record {
    allocated = λ a q h. ground (arith, eq_iff name a, w.allocated a q);
    unshared = λ a b q h k. ground (arith, eq_iff name a, eq_iff name b, w.unshared a b q, h, k);
  };
  same = ground (arith, eq_refl name);
  others = λ b n. ground (arith, eq_iff name b);
}

put_host-IsTurn :
    (p : ℕ) (name : String) (mem : Memory)
    → IsSeparate p mem
    → IsTurn p name
        (some (value_or_zero (host_view mem (some p) name)))
        mem
        (put_host p name (host_config (mem.map_at p name)) mem)
unfolding host_view
put_host-IsTurn p name mem w = record {
  separate = record {
    allocated = λ a q h. ground (arith, eq_iff name a, w.allocated a q, w.allocated name q, h);
    unshared = λ a b q h k. ground (
      arith,
      eq_iff name a,
      eq_iff name b,
      w.unshared a b q,
      w.unshared name b q,
      w.unshared a name q,
      h,
      k,
    );
  };
  same = ground (arith, eq_refl name);
  others = λ b n. ground (arith, eq_iff name b);
}

update_own-IsTurn :
    (p q : ℕ) (name : String) (r : ReconnectUpdateInfo) (ds : Durations) (mem : Memory)
    → IsSeparate p mem
    → pointer_at mem p name ≡ some q
    → IsTurn p name
        (some (some (apply_override name r ds (mem.override_at q))))
        mem
        (update_override p name r ds (q, mem))
unfolding host_view update_override
update_own-IsTurn p q name r ds mem w own = record {
  separate = record {
    allocated = λ a k h. ground (arith, eq_iff name a, w.allocated a k, w.allocated name k, own, h);
    unshared = λ a b k h i. ground (
      arith,
      eq_iff name a,
      eq_iff name b,
      w.unshared a b k,
      w.unshared name b k,
      w.unshared a name k,
      own,
      h,
      i,
    );
  };
  same = ground (arith, eq_refl name);
  others = λ b n. elim (Option-cases (pointer_at mem p b)) [
    | inl e ↦ ground (arith, eq_iff name b, e)
    | inr (k, e) ↦ ground (arith, eq_iff name b, e, own, w.unshared name b k)
  ];
}

update_fresh-IsTurn :
    (p : ℕ) (name : String) (r : ReconnectUpdateInfo) (ds : Durations) (mem : Memory)
    → IsSeparate p mem
    → IsTurn p name
        (some (some (apply_override name r ds no_override)))
        mem
        (update_override p name r ds (ensure_override none mem))
unfolding host_view update_override ensure_override
update_fresh-IsTurn p name r ds mem w = record {
  separate = record {
    allocated = λ a k h. ground (arith, eq_iff name a, w.allocated a k, h);
    unshared = λ a b k h i. ground (
      arith,
      eq_iff name a,
      eq_iff name b,
      w.unshared a b k,
      w.allocated a k,
      w.allocated b k,
      h,
      i,
    );
  };
  same = ground (arith, eq_refl name);
  others = λ b n. elim (Option-cases (pointer_at mem p b)) [
    | inl e ↦ ground (arith, eq_iff name b, e)
    | inr (k, e) ↦ ground (arith, eq_iff name b, e, w.allocated b k)
  ];
}

override_or_zero-view :
    (p : ℕ) (name : String) (mem : Memory)
    → override_or_zero (host_view mem (some p) name)
      ≡ elim (pointer_at mem p name) [ none ↦ no_override | some q ↦ mem.override_at q ]
unfolding host_view
override_or_zero-view p name mem = ground arith

host_config-reconnect :
    (p : ℕ) (name : String) (mem : Memory)
    → (host_config (mem.map_at p name)).reconnect ≡ pointer_at mem p name
host_config-reconnect p name mem = ground arith

update_override-IsTurn :
    (p : ℕ) (name : String) (r : ReconnectUpdateInfo) (ds : Durations) (mem : Memory)
    → IsSeparate p mem
    → IsTurn p name
        (some (some (apply_override name r ds (override_or_zero (host_view mem (some p) name)))))
        mem
        (update_override p name r ds
          (ensure_override (host_config (mem.map_at p name)).reconnect mem))
unfolding ensure_override
update_override-IsTurn p name r ds mem w =
    rw (override_or_zero-view p name mem, host_config-reconnect p name mem)
      (elim (Option-cases (pointer_at mem p name)) [
        | inl e ↦ rw e (update_fresh-IsTurn p name r ds mem w)
        | inr (q, e) ↦ rw (e, ensure_override) (update_own-IsTurn p q name r ds mem w e)
      ])

pub apply_host-IsTurn :
    (p : ℕ) (name : String) (upd : Option (Option HostConfigUpdateInfo)) (ds : Durations)
    (mem : Memory)
    → IsSeparate p mem
    → IsTurn p name
        (updated_entry name upd ds (host_view mem (some p) name))
        mem
        (apply_host p name upd ds mem)
unfolding apply_host updated_entry
apply_host-IsTurn p name none ds mem w = record { separate = w; same = refl; others = λ b n. refl }
apply_host-IsTurn p name (some none) ds mem w = delete_host-IsTurn p name mem w
apply_host-IsTurn p name (some (some u)) ds mem w = elim (Option-cases u.reconnect) [
  | inl e ↦ rw (e, apply_host) (put_host-IsTurn p name mem w)
  | inr (r, e) ↦
      rw (e, apply_host)
        (subst
          (λ o. IsTurn p name (some (some o)) mem (
            update_override p name r ds
              (ensure_override (host_config (mem.map_at p name)).reconnect mem)))
          (apply_override-expected name r ds (override_or_zero (host_view mem (some p) name)))
          (update_override-IsTurn p name r ds mem w))
]
