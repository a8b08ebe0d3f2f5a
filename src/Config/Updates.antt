-- ===== src/Config/Updates.antt =====
-- internal/core/config.go and internal/ipc/handler/config/handler.go: config.update against an update of
-- plain values, where the write succeeds and where it fails.
use mole_port.Base.{
  Bool-cases, Distinct, In, List, Map, Option, Option-cases, String, [], ap, arith, eq_iff, inl,
  inr, no_entries, none, refl, some, str_eq, subst, sym, ℕ, ◌∙◌, ◌∷◌, ◌≡◌, ◌≢◌, ◌⊎◌,
}
use mole_port.Config.Memory.{Memory, host_view}
use mole_port.Config.Params.{ConfigUpdateParams, HostConfigUpdateInfo}
use mole_port.Config.Validation.{Durations, Parsed, accepted, refused, validate_params}
use mole_port.Config.Applying.{apply_each, apply_hosts, apply_params, ensure_hosts}
use mole_port.Config.Hosts.{IsSeparate, apply_host-IsTurn, updated_entry}
use mole_port.Core.Settings.{Config, ReconnectOverride}
use mole_port.Config.Manager.{
  ConfigManager, YamlStore, config_path, current, get_config, update_config, write_and_keep,
  written,
}
use mole_port.Config.Handler.{answer_update, apply_checked, decoded, update}
use mole_port.Core.Errors.{Error}
use mole_port.Protocol.Codes.{internal_error, to_rpc_error}

module _ (p : ℕ) (hosts : Map (Option HostConfigUpdateInfo)) (ds : Durations) where
  apply_each_unnamed :
      (names : List String) (mem : Memory) (b : String)
      → IsSeparate p mem
      → (In b names → ⊥)
      → host_view (apply_each p hosts names ds mem) (some p) b ≡ host_view mem (some p) b
  unfolding apply_each
  apply_each_unnamed [] mem b w out = refl
  apply_each_unnamed (n ∷ ns) mem b w out =
      let step = apply_host-IsTurn p n (hosts n) ds mem w in
      apply_each_unnamed ns _ b step.separate (λ i. out (inr i))
      ∙ step.others b (λ e. out (inl (sym e)))

  apply_each_named :
      (names : List String) (mem : Memory) (b : String)
      → IsSeparate p mem
      → Distinct names
      → In b names
      → host_view (apply_each p hosts names ds mem) (some p) b
        ≡ updated_entry b (hosts b) ds (host_view mem (some p) b)
  unfolding apply_each
  apply_each_named [] mem b w once i = elim i [ ]
  apply_each_named (n ∷ ns) mem b w (fresh, once) (inl e) =
      let step = apply_host-IsTurn p n (hosts n) ds mem w in
      rw (e) (apply_each_unnamed ns _ n step.separate fresh ∙ step.same)
  apply_each_named (n ∷ ns) mem b w (fresh, once) (inr i) =
      let step = apply_host-IsTurn p n (hosts n) ds mem w in
      apply_each_named ns _ b step.separate once i
      ∙ ap (updated_entry b (hosts b) ds)
          (step.others b (λ e. fresh (subst (λ x. In x ns) (sym e) i)))

-- The loop comes by each name of the update.
abbrev pub Covers : Map (Option HostConfigUpdateInfo) → List String → Type 0
Covers hosts names = (b : String) → hosts b ≢ none → In b names

abbrev pub IsOwned : Option ℕ → Memory → Type 0
IsOwned none mem = Unit
IsOwned (some p) mem = IsSeparate p mem

-- A text is in a list or is not.
In-cases : (b : String) (names : List String) → In b names ⊎ (In b names → ⊥)
In-cases b [] = inr (λ i. i)
In-cases b (n ∷ ns) = elim (Bool-cases (str_eq b n)) [
  | inl e ↦ inl (inl (ground (arith, eq_iff b n)))
  | inr differ ↦ elim (In-cases b ns) [
    | inl i ↦ inl (inr i)
    | inr out ↦ inr (λ j. elim j [ inl e ↦ ground (arith, eq_iff b n, e) | inr i ↦ out i ])
  ]
]

unnamed_entry :
    (hosts : Map (Option HostConfigUpdateInfo)) (names : List String) (b : String) (ds : Durations)
    (old : Option (Option ReconnectOverride))
    → Covers hosts names
    → (In b names → ⊥)
    → updated_entry b (hosts b) ds old ≡ old
unfolding updated_entry
unnamed_entry hosts names b ds old covers out = elim (Option-cases (hosts b)) [
  | inl e ↦ rw e refl
  | inr (u, e) ↦ absurd (out (covers b (λ n. ground (arith, e, n))))
]

apply_each-Covers :
    (p : ℕ) (hosts : Map (Option HostConfigUpdateInfo)) (ds : Durations) (names : List String)
    (mem : Memory) (b : String)
    → IsSeparate p mem
    → Distinct names
    → Covers hosts names
    → host_view (apply_each p hosts names ds mem) (some p) b
      ≡ updated_entry b (hosts b) ds (host_view mem (some p) b)
apply_each-Covers p hosts ds names mem b w once covers = elim (In-cases b names) [
  | inl i ↦ apply_each_named p hosts ds names mem b w once i
  | inr out ↦
      apply_each_unnamed p hosts ds names mem b w out
      ∙ sym (unnamed_entry hosts names b ds (host_view mem (some p) b) covers out)
]

new_map-IsSeparate : (mem : Memory) → IsSeparate mem.next_map (ensure_hosts none mem).1
unfolding ensure_hosts
new_map-IsSeparate mem = record {
  allocated = λ a q h. ground (arith, h);
  unshared = λ a b q h k. ground (arith, h);
}

new_map-view :
    (mem : Memory) (b : String) → host_view (ensure_hosts none mem).1 (some mem.next_map) b ≡ none
unfolding ensure_hosts host_view
new_map-view mem b = ground arith

-- The update of a name, with a nil map as no update.
abbrev pub update_of :
    Option (Map (Option HostConfigUpdateInfo)) → Map (Option HostConfigUpdateInfo)
update_of none = no_entries
update_of (some hosts) = hosts

apply_hosts-view :
    (hosts : Option (Map (Option HostConfigUpdateInfo))) (names : List String) (ds : Durations)
    (at : Option ℕ) (mem : Memory) (b : String)
    → IsOwned at mem
    → Distinct names
    → Covers (update_of hosts) names
    → host_view (apply_hosts hosts names ds at mem).1 (apply_hosts hosts names ds at mem).0 b
      ≡ updated_entry b (update_of hosts b) ds (host_view mem at b)
unfolding apply_hosts ensure_hosts updated_entry host_view
apply_hosts-view none names ds at mem b w once covers = refl
apply_hosts-view (some hosts) names ds (some p) mem b w once covers =
    apply_each-Covers p hosts ds names mem b w once covers
apply_hosts-view (some hosts) names ds none mem b w once covers =
    apply_each-Covers mem.next_map hosts ds names (ensure_hosts none mem).1 b
      (new_map-IsSeparate mem) once covers
    ∙ ap (updated_entry b (hosts b) ds) (new_map-view mem b)

module _ (store : YamlStore) where
  write_and_keep_failed :
      (cfg : Config) (mem : Memory) (m : ConfigManager store) (e : Error)
      → (store.write_config m.disk (config_path store m) cfg (host_view mem cfg.hosts)).0 ≡ some e
      → write_and_keep store cfg mem m ≡ (
        some e,
        record m {
          memory = mem;
          disk = (store.write_config m.disk (config_path store m) cfg (host_view mem cfg.hosts)).1;
        },
      )
  unfolding write_and_keep written
  write_and_keep_failed cfg mem m e h = rw (write_and_keep, h, written) refl

apply_hosts_in_place :
    (hosts : Option (Map (Option HostConfigUpdateInfo))) (names : List String) (ds : Durations)
    (q : ℕ) (mem : Memory)
    → (apply_hosts hosts names ds (some q) mem).0 ≡ some q
unfolding apply_hosts ensure_hosts
apply_hosts_in_place none names ds q mem = refl
apply_hosts_in_place (some hosts) names ds q mem = refl

module _ (quote : String → String) (parse_duration : String → Parsed) (store : YamlStore) where
  -- Where the cached configuration has a map of hosts that share no override: when the store fails to write
  -- an update that passes the validation, the error is reported and the cached configuration stays the
  -- one it was, but the map is updated all the same: a reader finds the hosts of the update that failed.
  pub update_not_written :
      (p : ConfigUpdateParams) (names later : List String) (ds : Durations)
      (m : ConfigManager store) (q : ℕ) (e : Error)
      → validate_params parse_duration p names ≡ accepted ds
      → (current store m).hosts ≡ some q
      → IsSeparate q m.memory
      → Distinct later
      → Covers (update_of p.hosts) later
      → ((cfg : Config) (hosts : Map (Option ReconnectOverride))
          → (store.write_config m.disk (config_path store m) cfg hosts).0 ≡ some e)
      → let r = update quote parse_duration store (decoded p) names later m in
        (r.0 ≡ refused (to_rpc_error quote e internal_error))
        × (get_config store r.1 ≡ get_config store m)
        × ((b : String)
            → host_view r.1.memory (get_config store r.1).hosts b
              ≡ updated_entry b
                  (update_of p.hosts b)
                  ds
                  (host_view m.memory (current store m).hosts b))
  unfolding update apply_checked update_config answer_update get_config current apply_params
  update_not_written p names later ds m q e valid held owned once covers writes =
      let r = apply_params p later ds (current store m) m.memory in
      let stays : r.0.hosts ≡ some q =
        subst (λ at. (apply_hosts p.hosts later ds at m.memory).0 ≡ some q) (sym held)
          (apply_hosts_in_place p.hosts later ds q m.memory) in
      let owns : IsOwned (current store m).hosts m.memory =
        subst (λ at. IsOwned at m.memory) (sym held) owned in
      rw
        (
          valid,
          apply_checked,
          update_config,
          write_and_keep_failed store r.0 r.1 m e (writes r.0 (host_view r.1 r.0.hosts)),
          answer_update,
        )
        (
          refl,
          refl,
          λ b.
              ap (λ at. host_view r.1 at b) (held ∙ sym stays)
              ∙ apply_hosts-view p.hosts later ds (current store m).hosts m.memory b owns once
                  covers,
        )
