-- ===== src/Config/Durations.antt =====
-- internal/ipc/handler/config/handler.go: what the validation lets pass.
use text.Mathlib.Text.{starts_with}
use text.Mathlib.TextPositions.{starts_with-append}
use mole_port.Base.{
  Bool-cases, List, Map, Option, Option-cases, String, [], ap, arith, eq_iff, false, inl, inr,
  no_entries, none, pos, refl, some, str_eq, subst, true, ℤ, ◌<>◌, ◌∷◌, ◌≡◌, ◌≤ℤ◌, ◌⊎◌,
}
use mole_port.Core.Settings.{Config, hour}
use mole_port.Config.Memory.{Memory}
use mole_port.Config.Applying.{apply_params, apply_values}
use mole_port.Config.Validation.{
  Checked, Durations, Parsed, accepted, and_also, bad_duration, check_interval, duration, host_key,
  hosts_of, parsed_as, refused, validate_and_parse_duration, validate_host, validate_hosts,
  validate_params, validate_reconnect, validate_update_check,
}
use mole_port.Config.Params.{
  ConfigUpdateParams, HostConfigUpdateInfo, ReconnectUpdateInfo, UpdateCheckUpdateInfo,
}

abbrev interval_key : String
interval_key = "update_check.interval"

not_a_host : starts_with interval_key "hosts." ≡ false
not_a_host = refl

host_key-ne_interval : (name field : String) → str_eq (host_key name field) interval_key ≡ false
host_key-ne_interval name field = elim (Bool-cases (str_eq (host_key name field) interval_key)) [
  | inr e ↦ e
  | inl e ↦
      let same : host_key name field ≡ interval_key =
        ground (arith, eq_iff (host_key name field) interval_key, e) in
      let begins : starts_with interval_key "hosts." ≡ true =
        subst (λ k. starts_with k "hosts." ≡ true) same
          (starts_with-append "hosts." (name <> ".reconnect." <> field)) in
      ground (arith, not_a_host, begins)
]

-- An interval that has been parsed is an hour at least.
abbrev IsLong : Durations → Type 0
IsLong ds = (d : ℤ) → ds interval_key ≡ some d → pos hour ≤ℤ d

abbrev IsLongIfAccepted : Checked Durations → Type 0
IsLongIfAccepted c = (ds : Durations) → c ≡ accepted ds → IsLong ds

accepted_value : Durations → Checked Durations → Durations
accepted_value old (refused e) = old
accepted_value old (accepted ds) = ds

accepted_inj : (a b : Durations) → accepted a ≡ accepted b → a ≡ b
unfolding accepted_value
accepted_inj a b e = ap (accepted_value a) e

module _ (parse_duration : String → Parsed) where
  parsed_as-IsLong :
      (field : String) (ds : Durations) (r : Parsed)
      → str_eq field interval_key ≡ false
      → IsLong ds
      → IsLongIfAccepted (parsed_as field ds r)
  unfolding parsed_as
  parsed_as-IsLong field ds (bad_duration t) ne w es e d h = ground (arith, e)
  parsed_as-IsLong field ds (duration v) ne w es e d h =
      ground (arith, eq_iff field interval_key, accepted_inj _ _ e, w d, h)

and_also-IsLong :
    (c : Checked Durations) (f : Durations → Checked Durations)
    → IsLongIfAccepted c
    → ((ds : Durations) → IsLong ds → IsLongIfAccepted (f ds))
    → IsLongIfAccepted (and_also c f)
and_also-IsLong (refused e) f h k ds eq = ground (arith, eq)
and_also-IsLong (accepted ds) f h k es eq = k ds (h ds refl) es eq

and_also-checked :
    (c : Checked Durations) (f : Durations → Checked Durations)
    → ((ds : Durations) → IsLongIfAccepted (f ds))
    → IsLongIfAccepted (and_also c f)
and_also-checked (refused e) f k ds eq = ground (arith, eq)
and_also-checked (accepted ds) f k es eq = k ds es eq

accepted-IsLong : (ds : Durations) → IsLong ds → IsLongIfAccepted (accepted ds)
accepted-IsLong ds w es e = subst IsLong (accepted_inj ds es e) w

check_interval-IsLong : (ds : Durations) → IsLongIfAccepted (check_interval ds)
unfolding check_interval
check_interval-IsLong ds es e d h = ground (arith, accepted_inj ds es, e, h)

module _ (parse_duration : String → Parsed) where
  validate_duration-IsLong :
      (value : Option String) (field : String) (ds : Durations)
      → str_eq field interval_key ≡ false
      → IsLong ds
      → IsLongIfAccepted (validate_and_parse_duration parse_duration value field ds)
  unfolding validate_and_parse_duration
  validate_duration-IsLong none field ds ne w = accepted-IsLong ds w
  validate_duration-IsLong (some v) field ds ne w =
      parsed_as-IsLong parse_duration field ds (parse_duration v) ne w

  validate_reconnect-IsLong :
      (r : Option ReconnectUpdateInfo) (ds : Durations)
      → IsLong ds
      → IsLongIfAccepted (validate_reconnect parse_duration r ds)
  unfolding validate_reconnect
  validate_reconnect-IsLong none ds w = accepted-IsLong ds w
  validate_reconnect-IsLong (some r) ds w =
      and_also-IsLong _ _ (validate_duration-IsLong r.initial_delay _ ds refl w) (λ d1 w1.
        and_also-IsLong _ _ (validate_duration-IsLong r.max_delay _ d1 refl w1)
          (λ d2 w2. validate_duration-IsLong r.keep_alive_interval _ d2 refl w2))

  validate_host-IsLong :
      (name : String) (u : Option (Option HostConfigUpdateInfo)) (ds : Durations)
      → IsLong ds
      → IsLongIfAccepted (validate_host parse_duration name u ds)
  unfolding validate_host
  validate_host-IsLong name none ds w = accepted-IsLong ds w
  validate_host-IsLong name (some none) ds w = accepted-IsLong ds w
  validate_host-IsLong name (some (some u)) ds w = elim (Option-cases u.reconnect) [
    | inl e ↦ rw (e, validate_host) (accepted-IsLong ds w)
    | inr (r, e) ↦
        rw (e, validate_host)
          (and_also-IsLong _ _
            (validate_duration-IsLong r.initial_delay _ ds
              (host_key-ne_interval name "initial_delay") w)
            (λ d1 w1.
              validate_duration-IsLong r.max_delay _ d1 (host_key-ne_interval name "max_delay") w1))
  ]

  validate_hosts-IsLong :
      (hosts : Map (Option HostConfigUpdateInfo)) (names : List String) (ds : Durations)
      → IsLong ds
      → IsLongIfAccepted (validate_hosts parse_duration hosts names ds)
  unfolding validate_hosts
  validate_hosts-IsLong hosts [] ds w = accepted-IsLong ds w
  validate_hosts-IsLong hosts (n ∷ ns) ds w =
      and_also-IsLong _ _ (validate_host-IsLong n (hosts n) ds w) (validate_hosts-IsLong hosts ns)

  validate_update_check-IsLong :
      (u : Option UpdateCheckUpdateInfo) (ds : Durations)
      → IsLong ds
      → IsLongIfAccepted (validate_update_check parse_duration u ds)
  unfolding validate_update_check
  validate_update_check-IsLong none ds w = accepted-IsLong ds w
  validate_update_check-IsLong (some u) ds w =
      and_also-checked (validate_and_parse_duration parse_duration u.interval interval_key ds)
        check_interval check_interval-IsLong

  validate_params-IsLong :
      (p : ConfigUpdateParams) (names : List String)
      → IsLongIfAccepted (validate_params parse_duration p names)
  unfolding validate_params
  validate_params-IsLong p names =
      and_also-IsLong _ _
        (validate_reconnect-IsLong p.reconnect no_entries (λ d h. ground (arith, h)))
        (λ d1 w1.
          and_also-IsLong _ _ (validate_update_check-IsLong p.update_check d1 w1)
            (λ d2 w2. validate_hosts-IsLong (hosts_of parse_duration p) names d2 w2))

  -- An update that passes the validation sets the interval of the update check to an hour at least, or
  -- leaves it as it is.
  pub apply_params-interval :
      (p : ConfigUpdateParams) (names later : List String) (ds : Durations) (cfg : Config)
      (mem : Memory)
      → validate_params parse_duration p names ≡ accepted ds
      → (pos hour ≤ℤ (apply_params p later ds cfg mem).0.update_check.interval)
        ⊎ ((apply_params p later ds cfg mem).0.update_check.interval ≡ cfg.update_check.interval)
  unfolding apply_params apply_values
  apply_params-interval p names later ds cfg mem e = elim (Option-cases p.update_check) [
    | inl none_given ↦ inr (ground (arith, none_given))
    | inr (u, given) ↦ elim (Option-cases (ds interval_key)) [
      | inl unset ↦ inr (ground (arith, given, unset))
      | inr (d, set_to) ↦
          let long = validate_params-IsLong p names ds e d set_to in
          inl (ground (arith, given, set_to, long))
    ]
  ]
