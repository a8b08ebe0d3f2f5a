-- ===== src/Protocol/Roundtrip.antt =====
-- internal/ipc/protocol/convert.go: what a client reads back from the wire.
use mole_port.Base.{String, refl, some, ℕ, ◌≡◌}
use mole_port.Core.Enums.{
  ConnectionState, ForwardType, SessionStatus, active, connected, connecting, connection_error,
  disconnected, dynamic, local, parse_forward_type, pending_auth, reconnecting, remote,
  session_error, session_reconnecting, starting, stopped,
}
use mole_port.Core.Models.{ForwardSession, SshHost}
use mole_port.Protocol.Wire.{
  connection_state_to_wire, forward_type_to_wire, parse_connection_state, parse_session_status,
  session_status_to_wire,
}
use mole_port.Protocol.Infos.{to_host_info, to_session_info}

parse-connection_state :
    (s : ConnectionState) → parse_connection_state (connection_state_to_wire s) ≡ s
unfolding parse_connection_state connection_state_to_wire
parse-connection_state disconnected = refl
parse-connection_state connecting = refl
parse-connection_state connected = refl
parse-connection_state reconnecting = refl
parse-connection_state pending_auth = refl
parse-connection_state connection_error = refl

parse-session_status : (s : SessionStatus) → parse_session_status (session_status_to_wire s) ≡ s
unfolding parse_session_status session_status_to_wire
parse-session_status stopped = refl
parse-session_status starting = refl
parse-session_status active = refl
parse-session_status session_reconnecting = refl
parse-session_status session_error = refl

parse-forward_type : (t : ForwardType) → parse_forward_type (forward_type_to_wire t) ≡ some t
unfolding parse_forward_type forward_type_to_wire
parse-forward_type local = refl
parse-forward_type remote = refl
parse-forward_type dynamic = refl

-- The state of a host, and the status and the forward type of a session, are read back from the records
-- that go over the wire as they were.
pub parse-to_info :
    (format : ℕ → String) (h : SshHost) (s : ForwardSession)
    → (parse_connection_state (to_host_info h).state ≡ h.state)
      × (parse_session_status (to_session_info format s).status ≡ s.status)
      × (parse_forward_type (to_session_info format s).type ≡ some s.rule.type)
unfolding to_host_info to_session_info
parse-to_info format h s =
    (parse-connection_state h.state, parse-session_status s.status, parse-forward_type s.rule.type)
