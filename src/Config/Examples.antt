-- ===== src/Config/Examples.antt =====
-- Updates of a configuration with one host.
use mole_port.Base.{
  Distinct, List, Option, String, [], arith, eq_iff, false, if◌then◌else◌, inl, inr, no_entries,
  none, pos, put, refl, some, str_eq, ◌*◌, ◌∷◌, ◌≡◌,
}
use mole_port.Core.Errors.{Error, ok, other}
use mole_port.Core.Settings.{ReconnectOverride, default_config, hour, no_override}
use mole_port.Config.Memory.{Memory, empty_memory, host_view}
use mole_port.Config.Manager.{ConfigManager, YamlStore, current, get_config}
use mole_port.Config.Params.{ConfigUpdateParams}
use mole_port.Config.Validation.{
  Durations, Parsed, accepted, bad_duration, check_interval, duration, parsed_as, refused,
  validate_and_parse_duration, validate_host, validate_hosts, validate_params, validate_reconnect,
  validate_update_check,
}
use mole_port.Config.Handler.{decoded, update}
use mole_port.Config.Hosts.{IsSeparate, updated_entry}
use mole_port.Config.Updates.{Covers, update_not_written, update_of}
use mole_port.Protocol.Codes.{internal_error, to_rpc_error}

-- A disk that is written, or full.
abbrev disk_of : Option Error → YamlStore
disk_of problem = record {
  Disk = Unit {0};
  read_config = λ d path cfg mem. ok (cfg, mem);
  write_config = λ d path cfg hosts. (problem, d);
  read_state = λ d path s. ok s;
  write_state = λ d path s. (problem, d);
  remove = λ d path. (none, d);
  is_not_exist = λ e. false;
}

abbrev full : Error
full = other "no space left on device"

abbrev plain : String → String
plain s = s

-- Two hours are the only text that parses.
abbrev parser : String → Parsed
parser s = if str_eq s "2h" then duration (pos (2 * hour)) else bad_duration "invalid duration"

abbrev ten_retries : ReconnectOverride
ten_retries = record no_override { max_retries = some (pos 10) }

-- The host `web` has an override at 0.
abbrev shared : Memory
shared = record empty_memory {
  map_at = λ p. put no_entries "web" (record { reconnect = some 0 });
  next_map = 1;
  override_at = λ q. ten_retries;
  next_override = 1;
}

abbrev manager : (store : YamlStore) → store.Disk → ConfigManager store
manager store disk = record {
  config_dir = "/home/u/.config/moleport";
  cached = some (record default_config { hosts = some 0 });
  memory = shared;
  disk = disk;
}

shared-IsSeparate : IsSeparate 0 shared
shared-IsSeparate = record {
  allocated = λ a q h. ground (arith, eq_iff "web" a, h);
  unshared = λ a b q h k. ground (arith, eq_iff "web" a, eq_iff "web" b, h, k);
}

-- `web` is deleted, `db` is new, and the interval becomes two hours.
abbrev params : ConfigUpdateParams
params = record {
  ssh_config_path = none;
  reconnect = none;
  hosts = some (put (put no_entries "web" none) "db" (some (record { reconnect = none })));
  session = none;
  log = none;
  language = some "ja";
  update_check = some (record { enabled = none; interval = some "2h" });
  tui = none;
}

abbrev both : List String
both = "web" ∷ "db" ∷ []

abbrev parsed_interval : Durations
parsed_interval = put no_entries "update_check.interval" (pos (2 * hour))

both-Covers : Covers (update_of params.hosts) both
both-Covers b h = ground (arith, eq_iff "web" b, eq_iff "db" b, h)

both-Distinct : Distinct both
both-Distinct =
    ((λ i. elim i [ inl e ↦ ground (arith, eq_iff "web" "db", e) | inr j ↦ j ]), ((λ j. j), tt))

params_pass : validate_params parser params both ≡ accepted parsed_interval
unfolding validate_params validate_reconnect validate_update_check validate_and_parse_duration
    check_interval validate_hosts validate_host parsed_as
params_pass = refl

update_not_written_example :
    let store = disk_of (some full) in
    let m = manager store tt in
    let r = update plain parser store (decoded params) both both m in
    (r.0 ≡ refused (to_rpc_error plain full internal_error))
    × (get_config store r.1 ≡ get_config store m)
    × ((b : String)
        → host_view r.1.memory (get_config store r.1).hosts b
          ≡ updated_entry b
              (update_of params.hosts b)
              parsed_interval
              (host_view shared (some 0) b))
unfolding current
update_not_written_example =
    update_not_written plain parser (disk_of (some full)) params both both parsed_interval
      (manager (disk_of (some full)) tt) 0 full params_pass refl shared-IsSeparate both-Distinct
      both-Covers (λ cfg hosts. refl)
