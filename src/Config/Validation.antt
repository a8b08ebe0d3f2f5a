-- ===== src/Config/Validation.antt =====
-- internal/ipc/handler/config/handler.go: the validation of an update and the durations that it parses.
-- time.ParseDuration is a parameter, which gives the text of its error where it fails.
use mole_port.Base.{
  List, Map, Option, String, [], if◌then◌else◌, ltb_ℤ, no_entries, none, pos, put, some, ℤ, ◌<>◌,
  ◌∷◌,
}
use mole_port.Core.Settings.{hour}
use mole_port.Config.Params.{
  ConfigUpdateParams, HostConfigUpdateInfo, ReconnectUpdateInfo, UpdateCheckUpdateInfo,
}
use mole_port.Protocol.Codes.{RpcError, invalid_params}

-- A value, or the error of the request.
pub data Checked {ℓ} (A : Type ℓ) : Type ℓ where
  refused : RpcError → Checked A
  accepted : A → Checked A

pub data Parsed : Type 0 where
  bad_duration : String → Parsed
  duration : ℤ → Parsed

-- parsedDurations
abbrev pub Durations : Type 0
Durations = Map ℤ

abbrev pub and_also : Checked Durations → (Durations → Checked Durations) → Checked Durations
and_also (refused e) f = refused e
and_also (accepted ds) f = f ds

unfoldable pub parsed_as : String → Durations → Parsed → Checked Durations
parsed_as field ds (bad_duration text) =
    refused (record { code = invalid_params; message = "invalid " <> field <> ": " <> text })
parsed_as field ds (duration d) = accepted (put ds field d)

abbrev pub host_key : String → String → String
host_key name field = "hosts." <> name <> ".reconnect." <> field

-- `if d, ok := parsed["update_check.interval"]; ok && d < time.Hour`
unfoldable pub check_interval : Durations → Checked Durations
check_interval ds = elim (ds "update_check.interval") [
  | none ↦ accepted ds
  | some d ↦
      if ltb_ℤ d (pos hour)
      then refused
          (record { code = invalid_params; message = "update_check.interval must be at least 1h" })
      else accepted ds
]

module _ (parse_duration : String → Parsed) where
  -- validateAndParseDuration
  unfoldable pub validate_and_parse_duration :
      Option String → String → Durations → Checked Durations
  unfolding parsed_as
  validate_and_parse_duration none field ds = accepted ds
  validate_and_parse_duration (some value) field ds = parsed_as field ds (parse_duration value)

  unfoldable pub validate_reconnect : Option ReconnectUpdateInfo → Durations → Checked Durations
  unfolding validate_and_parse_duration
  validate_reconnect none ds = accepted ds
  validate_reconnect (some r) ds =
      and_also (validate_and_parse_duration r.initial_delay "reconnect.initial_delay" ds) (λ ds1.
        and_also (validate_and_parse_duration r.max_delay "reconnect.max_delay" ds1) (λ ds2.
          validate_and_parse_duration r.keep_alive_interval "reconnect.keepalive_interval" ds2))

  unfoldable pub validate_update_check :
      Option UpdateCheckUpdateInfo → Durations → Checked Durations
  unfolding validate_and_parse_duration check_interval
  validate_update_check none ds = accepted ds
  validate_update_check (some u) ds =
      and_also (validate_and_parse_duration u.interval "update_check.interval" ds) check_interval

  unfoldable pub validate_host :
      String → Option (Option HostConfigUpdateInfo) → Durations → Checked Durations
  unfolding validate_and_parse_duration
  validate_host name none ds = accepted ds
  validate_host name (some none) ds = accepted ds
  validate_host name (some (some u)) ds = elim u.reconnect [
    | none ↦ accepted ds
    | some r ↦
        and_also (validate_and_parse_duration r.initial_delay (host_key name "initial_delay") ds)
          (λ ds1. validate_and_parse_duration r.max_delay (host_key name "max_delay") ds1)
  ]

  -- The loop over `p.Hosts`, in the order given.
  unfoldable pub validate_hosts :
      Map (Option HostConfigUpdateInfo) → List String → Durations → Checked Durations
  unfolding validate_host
  validate_hosts hosts [] ds = accepted ds
  validate_hosts hosts (name ∷ names) ds =
      and_also (validate_host name (hosts name) ds) (validate_hosts hosts names)

  abbrev pub hosts_of : ConfigUpdateParams → Map (Option HostConfigUpdateInfo)
  hosts_of p = elim p.hosts [ none ↦ no_entries | some hosts ↦ hosts ]

  -- validateParams
  unfoldable pub validate_params : ConfigUpdateParams → List String → Checked Durations
  unfolding validate_reconnect validate_update_check validate_hosts
  validate_params p names = and_also (validate_reconnect p.reconnect no_entries) (λ ds1.
      and_also (validate_update_check p.update_check ds1) (validate_hosts (hosts_of p) names))
