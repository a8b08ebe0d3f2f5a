-- ===== src/Core/Models.antt =====
-- internal/core/types_models.go: hosts, rules, sessions and the check of a port. A port is a signed
-- `int`, a counter of bytes or attempts a natural number, and the zero time is `none`.
use mole_port.Base.{
  Bool, List, Option, String, if◌then◌else◌, itoa_ℤ, ltb_ℤ, none, pos, some, ℕ, ℤ, ◌<>◌, ◌||◌,
}
use mole_port.Core.Enums.{ConnectionState, ForwardType, SessionStatus, stopped}

pub record SshHost : Type 0 where
  pub name : String
  pub host_name : String
  pub port : ℤ
  pub user : String
  pub identity_files : List String
  pub proxy_jump : List String
  pub proxy_command : String
  pub strict_host_key_checking : String
  pub state : ConnectionState
  pub active_forward_count : ℕ

pub record ForwardRule : Type 0 where
  pub name : String
  pub host : String
  pub type : ForwardType
  pub local_port : ℤ
  pub remote_host : String
  pub remote_port : ℤ
  pub remote_bind_addr : String
  pub auto_connect : Bool

pub record ForwardSession : Type 0 where
  pub id : String
  pub rule : ForwardRule
  pub status : SessionStatus
  pub connected_at : Option ℕ
  pub bytes_sent : ℕ
  pub bytes_received : ℕ
  pub reconnect_count : ℕ
  pub last_error : String

pub record ForwardRestoreResult : Type 0 where
  pub rule_name : String
  pub ok : Bool
  pub error : String

-- The literal `ForwardSession{Rule: rule, Status: Stopped}`.
abbrev pub stopped_session : ForwardRule → ForwardSession
stopped_session r = record {
  id = "";
  rule = r;
  status = stopped;
  connected_at = none;
  bytes_sent = 0;
  bytes_received = 0;
  reconnect_count = 0;
  last_error = "";
}

abbrev pub min_port : ℕ
min_port = 1

abbrev pub max_port : ℕ
max_port = 65535

-- `none` is the nil error.
unfoldable pub validate_port : ℤ → Option String
unfolding itoa_ℤ
validate_port p =
    if ltb_ℤ p (pos min_port) || ltb_ℤ (pos max_port) p
    then some ("port must be between 1 and 65535, got " <> itoa_ℤ p)
    else none
