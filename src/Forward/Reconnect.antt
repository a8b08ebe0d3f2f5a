-- ===== src/Forward/Reconnect.antt =====
-- internal/core/forward/reconnect.go: forwards that outlive their connection.
use mole_port.Base.{
  Bool, List, Option, String, [], false, if◌then◌else◌, none, not, put, some, str_eq, true, ℕ, ◌&&◌,
  ◌++◌, ◌+◌, ◌==◌, ◌∷◌,
}
use mole_port.Core.Enums.{
  SessionStatus, active, session_error, session_reconnecting, session_status_eq,
}
use mole_port.Core.Models.{ForwardRestoreResult, ForwardSession}
use mole_port.Core.Errors.{Error, message, other}
use mole_port.Core.Events.{
  ForwardEvent, ForwardEventType, forward_error, forward_reconnecting, forward_restored,
}
use mole_port.Core.SshPort.{SshPort}
use mole_port.Forward.State.{
  ActiveForward, Manager, announce, announce_all, closed_listening, open_listening, write,
}
use mole_port.Forward.Sessions.{snapshot}
use mole_port.Forward.Lifecycle.{listen_call}

-- The test of the three loops: a session that runs, for this host, in this status.
abbrev pub concerns : String → SessionStatus → ActiveForward → Bool
concerns host status af =
    not af.starting
    && (str_eq af.session.rule.host host && session_status_eq af.session.status status)

-- The session as MarkReconnecting leaves it.
abbrev pub marked : ActiveForward → ActiveForward
marked af = record af {
  listener = closed_listening;
  cancelled = true;
  session = record (snapshot af) { status = session_reconnecting };
}

abbrev reconnection_failed : Error
reconnection_failed = other "reconnection failed"

-- The session as FailReconnecting leaves it.
abbrev pub failed : ActiveForward → ActiveForward
failed af = record af {
  session = record (af.session) { status = session_error; last_error = "reconnection failed" };
}

abbrev event_of : ForwardEventType → Option Error → ForwardSession → ForwardEvent
event_of type error s = record {
  type = type;
  rule_name = s.rule.name;
  session = some s;
  error = error;
}

abbrev pub mark_event : ForwardSession → ForwardEvent
mark_event = event_of forward_reconnecting none

abbrev pub fail_event : ForwardSession → ForwardEvent
fail_event = event_of forward_error (some reconnection_failed)

-- One round of a loop over `active`: the change and the event, where the session is concerned.
unfoldable pub visit :
    String
    → SessionStatus
    → (ActiveForward → ActiveForward)
    → (ForwardSession → ForwardEvent)
    → String
    → Manager
    → List ForwardEvent × Manager
visit host status change event name m = elim (m.active name) [
  | none ↦ ([], m)
  | some p ↦
      if concerns host status (m.heap p)
      then (
        event (change (m.heap p)).session ∷ [],
        record m { heap = write m.heap p (change (m.heap p)) },
      )
      else ([], m)
]

unfoldable pub visit_all :
    String
    → SessionStatus
    → (ActiveForward → ActiveForward)
    → (ForwardSession → ForwardEvent)
    → List String
    → Manager
    → List ForwardEvent × Manager
unfolding visit
visit_all host status change event [] m = ([], m)
visit_all host status change event (name ∷ names) m =
    let (es, m1) = visit host status change event name m in
    let (rest, m2) = visit_all host status change event names m1 in (es ++ rest, m2)

-- MarkReconnecting: `names` are the keys of `active` in the order of the `range` loop
unfoldable pub mark_reconnecting : String → List String → Manager → Manager
unfolding visit_all announce_all
mark_reconnecting host names m =
    let (es, m') = visit_all host active marked mark_event names m in announce_all es m'

-- FailReconnecting
unfoldable pub fail_reconnecting : String → List String → Manager → Manager
unfolding visit_all announce_all
fail_reconnecting host names m =
    let (es, m') = visit_all host session_reconnecting failed fail_event names m in
    announce_all es m'

-- setForwardError: the write goes through the pointer, wherever the map points by now
unfoldable pub set_forward_error : ℕ → String → Manager → Manager
unfolding announce
set_forward_error p text m =
    let af = m.heap p in
    let session : ForwardSession = record (af.session) {
      status = session_error;
      last_error = text;
    } in
    announce (event_of forward_error (some (other text)) session)
      (record m { heap = write m.heap p (record af { session = session }) })

-- The activeForward that replaces one that was reconnecting.
abbrev pub restored : ActiveForward → ActiveForward
restored af = record {
  session = record (af.session) {
    status = active;
    bytes_sent = af.sent;
    bytes_received = af.received;
    reconnect_count = af.session.reconnect_count + 1;
    last_error = "";
  };
  listener = open_listening;
  cancelled = false;
  sent = 0;
  received = 0;
  starting = false;
}

abbrev pub restore_ok : String → ForwardRestoreResult
restore_ok name = record { rule_name = name; ok = true; error = "" }

abbrev pub restore_failed : String → String → ForwardRestoreResult
restore_failed name text = record { rule_name = name; ok = false; error = text }

-- `exists && current == af && af.session.Status == core.SessionReconnecting`
unfoldable pub still_waiting : ℕ → Manager → Bool
still_waiting p m = elim (m.active (m.heap p).session.rule.name) [
  | none ↦ false
  | some q ↦ q == p && session_status_eq (m.heap p).session.status session_reconnecting
]

-- The locked section of restoreSingleForward, once a listener is open, and the event behind it.
unfoldable pub restore_commit : ℕ → Manager → ForwardRestoreResult × Manager
unfolding still_waiting announce
restore_commit p m =
    let name = (m.heap p).session.rule.name in
    if still_waiting p m
    then (
      restore_ok name,
      announce (event_of forward_restored none (restored (m.heap p)).session) (record m {
        active = put m.active name m.next_ref;
        heap = write m.heap m.next_ref (restored (m.heap p));
        next_ref = m.next_ref + 1;
      }),
    )
    else (restore_failed name "forward was stopped during restoration", m)

-- The first loop of RestoreForwards.
unfoldable pub waiting : String → List String → Manager → List ℕ
waiting host [] m = []
waiting host (name ∷ names) m =
    let rest = waiting host names m in
    elim (m.active name) [
      | none ↦ rest
      | some p ↦ if concerns host session_reconnecting (m.heap p) then p ∷ rest else rest
    ]

module _ (quote : String → String) (ssh : SshPort) where
  unfoldable pub restore_failure : ℕ → Error → Manager → ForwardRestoreResult × Manager
  unfolding set_forward_error message
  restore_failure p e m = (
    restore_failed (m.heap p).session.rule.name (message quote e),
    set_forward_error p (message quote e) m,
  )

  -- restoreSingleForward from the result of openListener on
  unfoldable pub restore_listened : Option Error → ℕ → Manager → ForwardRestoreResult × Manager
  unfolding restore_failure restore_commit
  restore_listened (some e) p m = restore_failure p e m
  restore_listened none p m = restore_commit p m

  -- restoreSingleForward: the two errors are those of the connection and of the client
  unfoldable pub restore_single :
      ssh.State → Option Error → Option Error → ℕ → Manager → ForwardRestoreResult × Manager
  unfolding restore_failure restore_listened listen_call
  restore_single s (some e) client p m = restore_failure p e m
  restore_single s none (some e) p m = restore_failure p e m
  restore_single s none none p m =
      let rule = (m.heap p).session.rule in
      restore_listened (ssh.listen s rule.host (listen_call rule.type rule)) p m

  unfoldable pub restore_each :
      ssh.State
      → Option Error
      → Option Error
      → List ℕ
      → Manager
      → List ForwardRestoreResult × Manager
  restore_each s conn client [] m = ([], m)
  restore_each s conn client (p ∷ ps) m =
      let (r, m1) = restore_single s conn client p m in
      let (rs, m2) = restore_each s conn client ps m1 in (r ∷ rs, m2)

  -- RestoreForwards
  unfoldable pub restore_forwards :
      String → List String → ssh.State → Manager → List ForwardRestoreResult × Manager
  unfolding waiting restore_each
  restore_forwards host names s m =
      restore_each s (ssh.get_ssh_connection s host) (ssh.get_connection s host)
        (waiting host names m) m
