-- ===== src/Daemon/Routing.antt =====
-- internal/daemon/daemon_state.go: the routing of SSH events to the broker and to the forward manager. The
-- map `reconnecting` is read as a function, since a missing key reads as false.
use mole_port.Base.{Bool, List, Option, String, false, if◌then◌else◌, str_eq, true}
use mole_port.Core.Events.{
  SshEvent, SshEventType, ssh_connected, ssh_disconnected, ssh_error, ssh_pending_auth,
  ssh_reconnecting,
}
use mole_port.Core.SshPort.{SshPort}
use mole_port.Forward.State.{Manager}
use mole_port.Forward.Reconnect.{fail_reconnecting, mark_reconnecting, restore_forwards}
use mole_port.Broker.State.{EventBroker}
use mole_port.Broker.Events.{Notification, SshEventNotification, handle_ssh_event}

pub record Router : Type 0 where
  pub reconnecting : String → Bool
  pub forwards : Manager

-- reconnecting[host] = value, and delete for false
abbrev pub flag : (String → Bool) → String → Bool → String → Bool
flag f host value h = if str_eq host h then value else f h

module _ (quote : String → String) (ssh : SshPort) where
  -- The switch on the type of the event; `names` is the order of the loop over the active forwards.
  unfoldable pub route : SshEventType → String → List String → ssh.State → Router → Router
  unfolding mark_reconnecting restore_forwards fail_reconnecting
  route ssh_reconnecting host names s r = record {
    reconnecting = flag r.reconnecting host true;
    forwards = mark_reconnecting host names r.forwards;
  }
  route ssh_connected host names s r =
      if r.reconnecting host
      then record {
        reconnecting = flag r.reconnecting host false;
        forwards = (restore_forwards quote ssh host names s r.forwards).1;
      }
      else r
  route ssh_error host names s r =
      if r.reconnecting host
      then record {
        reconnecting = flag r.reconnecting host false;
        forwards = fail_reconnecting host names r.forwards;
      }
      else r
  route ssh_disconnected host names s r = r
  route ssh_pending_auth host names s r = r

  -- One turn of the loop over `sshEvents`: what the broker sends, and the new state.
  unfoldable pub route_event :
      (SshEventNotification → Option String)
      → List String
      → EventBroker
      → List String
      → ssh.State
      → SshEvent
      → Router
      → List (String × Notification) × Router
  unfolding handle_ssh_event route
  route_event marshal order broker names s evt r =
      (handle_ssh_event quote marshal order evt broker, route evt.type evt.host_name names s r)
