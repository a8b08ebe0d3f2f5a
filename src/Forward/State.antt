-- ===== src/Forward/State.antt =====
-- internal/core/forward/manager.go: the state of the manager. The map `active` holds pointers, and
-- other code keeps them across a release of the lock, so the sessions lie on a heap.
use mole_port.Base.{
  Bool, List, Map, String, [], false, if◌then◌else◌, no_entries, pos, true, ℕ, ◌==◌,
}
use mole_port.Core.Enums.{local}
use mole_port.Core.Models.{ForwardRule, ForwardSession, stopped_session}
use mole_port.Core.Events.{ForwardEvent}
use mole_port.Core.Events

-- net.Listener: nil, or a listener and whether it has been closed
pub data Listener : Type 0 where
  nil open_listening closed_listening : Listener

-- activeForward: `cancelled` tells whether its context is
pub record ActiveForward : Type 0 where
  pub session : ForwardSession
  pub listener : Listener
  pub cancelled : Bool
  pub sent : ℕ
  pub received : ℕ
  pub starting : Bool

abbrev pub zero_rule : ForwardRule
zero_rule = record {
  name = "";
  host = "";
  type = local;
  local_port = pos 0;
  remote_host = "";
  remote_port = pos 0;
  remote_bind_addr = "";
  auto_connect = false;
}

-- &activeForward{starting: true}
abbrev pub placeholder : ActiveForward
placeholder = record {
  session = stopped_session zero_rule;
  listener = nil;
  cancelled = false;
  sent = 0;
  received = 0;
  starting = true;
}

-- forwardManager: pointers below `next_ref` have been allocated
pub record Manager : Type 0 where
  pub rules : Map ForwardRule
  pub rule_order : List String
  pub active : Map ℕ
  pub heap : ℕ → ActiveForward
  pub next_ref : ℕ
  pub events : List (List ForwardEvent)
  pub closed : Bool
  pub next_id : ℕ

-- NewForwardManager
unfoldable pub new : Manager
new = record {
  rules = no_entries;
  rule_order = [];
  active = no_entries;
  heap = λ p. placeholder;
  next_ref = 0;
  events = [];
  closed = false;
  next_id = 0;
}

-- *p = af
abbrev pub write : (ℕ → ActiveForward) → ℕ → ActiveForward → ℕ → ActiveForward
write heap p af q = if p == q then af else heap q

-- m.events.Emit, once or for each of a list
unfoldable pub announce : ForwardEvent → Manager → Manager
unfolding Events.emit
announce event m = record m { events = Events.emit m.events event }

unfoldable pub announce_all : List ForwardEvent → Manager → Manager
unfolding Events.emit_all
announce_all events m = record m { events = Events.emit_all m.events events }

-- Subscribe
unfoldable pub add_subscriber : Manager → Manager
unfolding Events.subscribe
add_subscriber m = record m { events = Events.subscribe m.events }
