-- ===== src/Protocol/Infos.antt =====
-- internal/ipc/protocol: the records of hosts, rules and sessions on the wire. `time.Format` with the
-- layout RFC 3339 is a parameter, as it is the standard library's.
use mole_port.Base.{Bool, String, none, some, ℕ, ℤ}
use mole_port.Core.Models.{ForwardRule, ForwardSession, SshHost}
use mole_port.Protocol.Wire.{connection_state_to_wire, forward_type_to_wire, session_status_to_wire}

pub record HostInfo : Type 0 where
  pub name : String
  pub host_name : String
  pub port : ℤ
  pub user : String
  pub state : String
  pub active_forward_count : ℕ

pub record ForwardInfo : Type 0 where
  pub name : String
  pub host : String
  pub type : String
  pub local_port : ℤ
  pub remote_host : String
  pub remote_port : ℤ
  pub remote_bind_addr : String
  pub auto_connect : Bool

pub record SessionInfo : Type 0 where
  pub id : String
  pub name : String
  pub host : String
  pub type : String
  pub local_port : ℤ
  pub remote_host : String
  pub remote_port : ℤ
  pub remote_bind_addr : String
  pub status : String
  pub connected_at : String
  pub bytes_sent : ℕ
  pub bytes_received : ℕ
  pub reconnect_count : ℕ
  pub last_error : String

-- ToHostInfo
unfoldable pub to_host_info : SshHost → HostInfo
unfolding connection_state_to_wire
to_host_info h = record {
  name = h.name;
  host_name = h.host_name;
  port = h.port;
  user = h.user;
  state = connection_state_to_wire h.state;
  active_forward_count = h.active_forward_count;
}

-- ToForwardInfo
unfoldable pub to_forward_info : ForwardRule → ForwardInfo
unfolding forward_type_to_wire
to_forward_info r = record {
  name = r.name;
  host = r.host;
  type = forward_type_to_wire r.type;
  local_port = r.local_port;
  remote_host = r.remote_host;
  remote_port = r.remote_port;
  remote_bind_addr = r.remote_bind_addr;
  auto_connect = r.auto_connect;
}

-- ToSessionInfo
unfoldable pub to_session_info : (ℕ → String) → ForwardSession → SessionInfo
unfolding forward_type_to_wire session_status_to_wire
to_session_info format s = record {
  id = s.id;
  name = s.rule.name;
  host = s.rule.host;
  type = forward_type_to_wire s.rule.type;
  local_port = s.rule.local_port;
  remote_host = s.rule.remote_host;
  remote_port = s.rule.remote_port;
  remote_bind_addr = s.rule.remote_bind_addr;
  status = session_status_to_wire s.status;
  connected_at = elim s.connected_at [ none ↦ "" | some t ↦ format t ];
  bytes_sent = s.bytes_sent;
  bytes_received = s.bytes_received;
  reconnect_count = s.reconnect_count;
  last_error = s.last_error;
}
