-- ===== src/Core/Events.antt =====
-- internal/core/types_events.go and event_emitter.go: events, and their delivery to the bounded
-- channels of the subscribers.
use mole_port.Base.{List, Option, String, [], if◌then◌else◌, length, ltb, map, ℕ, ◌++◌, ◌∷◌}
use mole_port.Core.Models.{ForwardSession}
use mole_port.Core.Errors.{Error}

pub data SshEventType : Type 0 where
  ssh_connected ssh_disconnected ssh_reconnecting ssh_pending_auth ssh_error : SshEventType

pub record SshEvent : Type 0 where
  pub type : SshEventType
  pub host_name : String
  pub error : Option Error

pub data ForwardEventType : Type 0 where
  forward_started forward_stopped forward_error forward_metrics_updated forward_reconnecting :
      ForwardEventType
  forward_restored : ForwardEventType

pub record ForwardEvent : Type 0 where
  pub type : ForwardEventType
  pub rule_name : String
  pub session : Option ForwardSession
  pub error : Option Error

-- SSHEventType.String
unfoldable pub ssh_event_type_string : SshEventType → String
ssh_event_type_string ssh_connected = "Connected"
ssh_event_type_string ssh_disconnected = "Disconnected"
ssh_event_type_string ssh_reconnecting = "Reconnecting"
ssh_event_type_string ssh_pending_auth = "PendingAuth"
ssh_event_type_string ssh_error = "Error"

-- ForwardEventType.String
unfoldable pub forward_event_type_string : ForwardEventType → String
forward_event_type_string forward_started = "Started"
forward_event_type_string forward_stopped = "Stopped"
forward_event_type_string forward_error = "Error"
forward_event_type_string forward_metrics_updated = "MetricsUpdated"
forward_event_type_string forward_reconnecting = "Reconnecting"
forward_event_type_string forward_restored = "Restored"

abbrev pub event_channel_buffer : ℕ
event_channel_buffer = 16

module _ {E : Type 0} where
  -- The events that wait in one channel, oldest first; a full channel drops the event.
  unfoldable pub offer : E → List E → List E
  offer event ch = if ltb (length ch) event_channel_buffer then ch ++ event ∷ [] else ch

  -- An emitter is the list of its subscribers' channels.
  unfoldable pub emit : List (List E) → E → List (List E)
  unfolding offer
  emit channels event = map (offer event) channels

  unfoldable pub emit_all : List (List E) → List E → List (List E)
  unfolding emit
  emit_all channels [] = channels
  emit_all channels (e ∷ es) = emit_all (emit channels e) es

  unfoldable pub subscribe : List (List E) → List (List E)
  subscribe channels = channels ++ [] ∷ []

  unfoldable pub close_subscribers : List (List E) → List (List E)
  close_subscribers channels = []
