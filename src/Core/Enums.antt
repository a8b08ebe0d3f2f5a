-- ===== src/Core/Enums.antt =====
-- internal/core/types_enums.go: the states of connections and sessions, and the forward types. An
-- enumeration is a data type, so the `default` branches for other integers have no counterpart.
use mole_port.Base.{String, Bool, true, false, ◌≡◌, refl, Option, none, some, str_eq, if◌then◌else◌}

pub data ConnectionState : Type 0 where
  disconnected connecting connected reconnecting pending_auth connection_error : ConnectionState

pub data SessionStatus : Type 0 where
  stopped starting active session_reconnecting session_error : SessionStatus

pub data ForwardType : Type 0 where
  local remote dynamic : ForwardType

-- ConnectionState.String
unfoldable pub connection_state_string : ConnectionState → String
connection_state_string disconnected = "Disconnected"
connection_state_string connecting = "Connecting"
connection_state_string connected = "Connected"
connection_state_string reconnecting = "Reconnecting"
connection_state_string pending_auth = "PendingAuth"
connection_state_string connection_error = "Error"

-- SessionStatus.String
unfoldable pub session_status_string : SessionStatus → String
session_status_string stopped = "Stopped"
session_status_string starting = "Starting"
session_status_string active = "Active"
session_status_string session_reconnecting = "Reconnecting"
session_status_string session_error = "Error"

-- ForwardType.String
unfoldable pub forward_type_string : ForwardType → String
forward_type_string local = "local"
forward_type_string remote = "remote"
forward_type_string dynamic = "dynamic"

-- `none` stands for the error of an unknown forward type.
unfoldable pub parse_forward_type : String → Option ForwardType
parse_forward_type s =
    if str_eq s "local"
    then some local
    else if str_eq s "remote"
    then some remote
    else if str_eq s "dynamic"
    then some dynamic
    else none

abbrev pub connection_state_eq : ConnectionState → ConnectionState → Bool
connection_state_eq disconnected disconnected = true
connection_state_eq connecting connecting = true
connection_state_eq connected connected = true
connection_state_eq reconnecting reconnecting = true
connection_state_eq pending_auth pending_auth = true
connection_state_eq connection_error connection_error = true
connection_state_eq _ _ = false

abbrev pub session_status_eq : SessionStatus → SessionStatus → Bool
session_status_eq stopped stopped = true
session_status_eq starting starting = true
session_status_eq active active = true
session_status_eq session_reconnecting session_reconnecting = true
session_status_eq session_error session_error = true
session_status_eq _ _ = false

-- A forward type is read back from its own text.
pub parse_forward_type-forward_type_string :
    (t : ForwardType) → parse_forward_type (forward_type_string t) ≡ some t
unfolding parse_forward_type forward_type_string
parse_forward_type-forward_type_string local = refl
parse_forward_type-forward_type_string remote = refl
parse_forward_type-forward_type_string dynamic = refl
