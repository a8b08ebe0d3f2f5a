-- ===== src/Handlers/Params.antt =====
-- internal/ipc/handler/handler.go: parseParams and validateRequired; internal/ipc/protocol/protocol_forward.go:
-- the parameters and results of the methods for forwards. json.Unmarshal is a parameter: a handler gets
-- what it gives.
use mole_port.Base.{Bool, List, String, [], if◌then◌else◌, str_eq, ℤ, ◌<>◌, ◌∷◌}
use mole_port.Protocol.Codes.{invalid_params}
use mole_port.Config.Validation.{Checked, accepted, refused}

-- The raw parameters: none, those that do not decode with the text of the error, or decoded ones
pub data Raw {ℓ} (A : Type ℓ) : Type ℓ where
  missing : Raw A
  unreadable : String → Raw A
  read : A → Raw A

abbrev pub invalid {ℓ} : {A : Type ℓ} → String → Checked A
invalid text = refused (record { code = invalid_params; message = text })

-- parseParams
unfoldable pub parse_params {ℓ} : {A : Type ℓ} → Raw A → Checked A
parse_params missing = invalid "params required"
parse_params (unreadable text) = invalid ("invalid params: " <> text)
parse_params (read p) = accepted p

-- validateRequired, for fields with their names
unfoldable pub validate_required : List (String × String) → Checked (Unit {0})
validate_required [] = accepted tt
validate_required ((name, value) ∷ fields) =
    let rest = validate_required fields in
    if str_eq value "" then invalid (name <> " is required") else rest

-- The statements behind a check that may return an error
abbrev pub and_then {ℓ κ} : {A : Type ℓ} {B : Type κ} → Checked A → (A → Checked B) → Checked B
and_then (refused e) later = refused e
and_then (accepted a) later = later a

-- ForwardAddParams
pub record ForwardAddParams : Type 0 where
  pub name : String
  pub host : String
  pub type : String
  pub local_port : ℤ
  pub remote_host : String
  pub remote_port : ℤ
  pub remote_bind_addr : String
  pub auto_connect : Bool

-- ForwardStartResult and ForwardStopResult
pub record ForwardStatus : Type 0 where
  pub name : String
  pub status : String
