-- ===== src/Broker/Events.antt =====
-- internal/ipc/broker.go: the notifications of events. json.Marshal is a parameter, `none` where it
-- fails; the visits of the loop over the subscriptions come in the order given, as Go leaves it open.
use mole_port.Base.{
  Bool, List, Map, Option, String, [], false, if◌then◌else◌, map, none, not, some, str_eq, ◌&&◌,
  ◌++◌, ◌||◌, ◌∷◌,
}
use mole_port.Core.Errors.{Error, message}
use mole_port.Core.Events.{
  ForwardEvent, ForwardEventType, SshEvent, SshEventType, forward_error, forward_metrics_updated,
  forward_reconnecting, forward_restored, forward_started, forward_stopped, ssh_connected,
  ssh_disconnected, ssh_error, ssh_pending_auth, ssh_reconnecting,
}
use mole_port.Core.Models.{ForwardSession}
use mole_port.Broker.State.{EventBroker, Subscription}

pub record Notification : Type 0 where
  pub json_rpc : String
  pub method : String
  pub params : String

pub record SshEventNotification : Type 0 where
  pub type : String
  pub host : String
  pub error : String

pub record ForwardEventNotification : Type 0 where
  pub type : String
  pub name : String
  pub host : String
  pub error : String

-- sshEventTypeToString
unfoldable pub ssh_event_type_to_string : SshEventType → String
ssh_event_type_to_string ssh_connected = "connected"
ssh_event_type_to_string ssh_disconnected = "disconnected"
ssh_event_type_to_string ssh_reconnecting = "reconnecting"
ssh_event_type_to_string ssh_pending_auth = "pending_auth"
ssh_event_type_to_string ssh_error = "error"

-- forwardEventTypeToString
unfoldable pub forward_event_type_to_string : ForwardEventType → String
forward_event_type_to_string forward_started = "started"
forward_event_type_to_string forward_stopped = "stopped"
forward_event_type_to_string forward_error = "error"
forward_event_type_to_string forward_metrics_updated = "metrics_updated"
forward_event_type_to_string forward_reconnecting = "reconnecting"
forward_event_type_to_string forward_restored = "restored"

-- The loop of distribute: `sent` holds the clients in `targets`, and stands for it here.
unfoldable pub is_sent : String → List String → Bool
is_sent client [] = false
is_sent client (x ∷ xs) = str_eq x client || is_sent client xs

-- The body of the loop for the subscription that the visit finds
unfoldable pub visit_found : String → Option Subscription → List String → List String
unfolding is_sent
visit_found event_type none targets = targets
visit_found event_type (some s) targets =
    if s.types event_type && not (is_sent s.client_id targets)
    then targets ++ s.client_id ∷ []
    else targets

unfoldable pub visit : Map Subscription → String → String → List String → List String
unfolding visit_found
visit subs event_type id targets = visit_found event_type (subs id) targets

unfoldable pub targets_in : Map Subscription → String → List String → List String → List String
unfolding visit
targets_in subs event_type [] targets = targets
targets_in subs event_type (id ∷ ids) targets =
    targets_in subs event_type ids (visit subs event_type id targets)

-- distribute: what is handed to the sender, one goroutine for each entry
unfoldable pub distribute :
    List String → String → String → Option String → EventBroker → List (String × Notification)
unfolding targets_in
distribute order event_type method none b = []
distribute order event_type method (some text) b =
    map (λ client. (client, record { json_rpc = "2.0"; method = method; params = text }))
      (targets_in b.subscriptions event_type order [])

module _ (quote : String → String) where
  error_text : Option Error → String
  unfolding message
  error_text none = ""
  error_text (some e) = message quote e

  unfoldable pub ssh_notification : SshEvent → SshEventNotification
  unfolding ssh_event_type_to_string error_text
  ssh_notification evt = record {
    type = ssh_event_type_to_string evt.type;
    host = evt.host_name;
    error = error_text evt.error;
  }

  session_host : Option ForwardSession → String
  session_host none = ""
  session_host (some s) = s.rule.host

  unfoldable pub forward_notification : ForwardEvent → ForwardEventNotification
  unfolding forward_event_type_to_string error_text session_host
  forward_notification evt = record {
    type = forward_event_type_to_string evt.type;
    name = evt.rule_name;
    host = session_host evt.session;
    error = error_text evt.error;
  }

  -- HandleSSHEvent
  unfoldable pub handle_ssh_event :
      (SshEventNotification → Option String)
      → List String
      → SshEvent
      → EventBroker
      → List (String × Notification)
  unfolding ssh_notification distribute
  handle_ssh_event marshal order evt b =
      distribute order "ssh" "event.ssh" (marshal (ssh_notification evt)) b

  -- HandleForwardEvent
  unfoldable pub handle_forward_event :
      (ForwardEventNotification → Option String)
      → List String
      → ForwardEvent
      → EventBroker
      → List (String × Notification)
  unfolding forward_notification distribute
  handle_forward_event marshal order evt b =
      distribute order "forward" "event.forward" (marshal (forward_notification evt)) b
