-- ===== src/Protocol/Examples.antt =====
-- Hosts, sessions and errors on the wire.
use mole_port.Base.{List, String, [], false, pos, some, ℕ, ◌∷◌, ◌≡◌}
use mole_port.Core.Enums.{dynamic, parse_forward_type, pending_auth, session_reconnecting}
use mole_port.Core.Models.{ForwardSession, SshHost, stopped_session}
use mole_port.Protocol.Wire.{parse_connection_state, parse_session_status}
use mole_port.Protocol.Infos.{to_host_info, to_session_info}
use mole_port.Protocol.Roundtrip.{parse-to_info}
use mole_port.Base.{◌<>◌}

abbrev waiting_host : SshHost
waiting_host = record {
  name = "web";
  host_name = "10.0.0.1";
  port = pos 22;
  user = "deploy";
  identity_files = [];
  proxy_jump = [];
  proxy_command = "";
  strict_host_key_checking = "";
  state = pending_auth;
  active_forward_count = 2;
}

abbrev proxy_session : ForwardSession
proxy_session =
    record (stopped_session (record {
      name = "proxy";
      host = "web";
      type = dynamic;
      local_port = pos 1080;
      remote_host = "";
      remote_port = pos 0;
      remote_bind_addr = "";
      auto_connect = false;
    })) { status = session_reconnecting }

abbrev no_format : ℕ → String
no_format t = "2026-01-01T00:00:00Z"

parse-to_info_example :
    (parse_connection_state (to_host_info waiting_host).state ≡ pending_auth)
    × (parse_session_status (to_session_info no_format proxy_session).status ≡ session_reconnecting)
    × (parse_forward_type (to_session_info no_format proxy_session).type ≡ some dynamic)
parse-to_info_example = parse-to_info no_format waiting_host proxy_session

abbrev quoted : String → String
quoted s = "\"" <> s <> "\""

abbrev layers : List String
layers = "start" ∷ "forward" ∷ []
