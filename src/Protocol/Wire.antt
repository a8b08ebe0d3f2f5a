-- ===== src/Protocol/Wire.antt =====
-- internal/ipc/protocol/wire_constants.go and convert.go: the texts of states, statuses and types.
use mole_port.Base.{String, if◌then◌else◌, str_eq}
use mole_port.Core.Enums.{
  ConnectionState, ForwardType, SessionStatus, active, connected, connecting, connection_error,
  disconnected, dynamic, local, pending_auth, reconnecting, remote, session_error,
  session_reconnecting, starting, stopped,
}

-- connectionStateToWire, with the State constants
unfoldable pub connection_state_to_wire : ConnectionState → String
connection_state_to_wire connected = "connected"
connection_state_to_wire connecting = "connecting"
connection_state_to_wire reconnecting = "reconnecting"
connection_state_to_wire pending_auth = "pending_auth"
connection_state_to_wire connection_error = "error"
connection_state_to_wire disconnected = "disconnected"

-- sessionStatusToWire, with the Session constants
unfoldable pub session_status_to_wire : SessionStatus → String
session_status_to_wire active = "active"
session_status_to_wire starting = "starting"
session_status_to_wire session_reconnecting = "reconnecting"
session_status_to_wire session_error = "error"
session_status_to_wire stopped = "stopped"

-- forwardTypeToWire, with the ForwardType constants
unfoldable pub forward_type_to_wire : ForwardType → String
forward_type_to_wire local = "local"
forward_type_to_wire remote = "remote"
forward_type_to_wire dynamic = "dynamic"

-- ParseConnectionState
unfoldable pub parse_connection_state : String → ConnectionState
parse_connection_state s =
    if str_eq s "connected"
    then connected
    else if str_eq s "connecting"
    then connecting
    else if str_eq s "reconnecting"
    then reconnecting
    else if str_eq s "pending_auth"
    then pending_auth
    else if str_eq s "error"
    then connection_error
    else disconnected

-- ParseSessionStatus
unfoldable pub parse_session_status : String → SessionStatus
parse_session_status s =
    if str_eq s "active"
    then active
    else if str_eq s "starting"
    then starting
    else if str_eq s "reconnecting"
    then session_reconnecting
    else if str_eq s "error"
    then session_error
    else stopped
