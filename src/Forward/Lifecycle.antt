-- ===== src/Forward/Lifecycle.antt =====
-- internal/core/forward/lifecycle.go and forward_helper.go: starting and stopping a forward. A start
-- holds the lock twice, around the calls of the SSH manager: `start_reserve` and `start_commit` (or
-- `start_cleanup`) are its locked sections, `start_connect` is what lies between.
use mole_port.Base.{
  List, Option, String, [], delete, false, if◌then◌else◌, itoa, itoa_ℤ, none, put, some, true, ℕ,
  ◌+◌, ◌<>◌, ◌∷◌,
}
use mole_port.Core.Enums.{ForwardType, active, dynamic, local, remote, stopped}
use mole_port.Core.Models.{ForwardRule, ForwardSession}
use mole_port.Core.Errors.{Error, Result, already_active, check_as, err, not_found, ok, wrap, ◌>>◌}
use mole_port.Core.Events.{close_subscribers, forward_started, forward_stopped}
use mole_port.Core.SshPort.{ListenCall, SshPort, dynamic_forward, local_forward, remote_forward}
use mole_port.Forward.State.{
  ActiveForward, Manager, announce, closed_listening, open_listening, placeholder, write,
}
use mole_port.Forward.Sessions.{snapshot}
use mole_port.Forward.Rules.{remove_first}

-- openListener: the call that it makes for a rule
unfoldable pub listen_call : ForwardType → ForwardRule → ListenCall
unfolding itoa_ℤ
listen_call local r = local_forward r.local_port (r.remote_host <> ":" <> itoa_ℤ r.remote_port)
listen_call remote r =
    remote_forward r.remote_port ("127.0.0.1:" <> itoa_ℤ r.local_port) r.remote_bind_addr
listen_call dynamic r = dynamic_forward r.local_port

-- The first locked section of StartForward: the checks, and a placeholder under the name.
unfoldable pub start_reserve : String → Manager → Result ForwardRule × Manager
start_reserve name m = elim (m.rules name) [
  | none ↦ (err (not_found "rule" name), m)
  | some rule ↦ elim (m.active name) [
    | some p ↦ (err (already_active name), m)
    | none ↦ (
      ok rule,
      record m {
        active = put m.active name m.next_ref;
        heap = write m.heap m.next_ref placeholder;
        next_ref = m.next_ref + 1;
      },
    )
  ]
]

-- The closure `cleanup`.
unfoldable pub start_cleanup : String → Manager → Manager
start_cleanup name m = elim (m.active name) [
  | none ↦ m
  | some p ↦ if (m.heap p).starting then record m { active = delete m.active name } else m
]

-- The session that StartForward makes; `now` is time.Now() in nanoseconds.
abbrev pub started : String → ForwardRule → ℕ → ActiveForward
started name rule now = record {
  session = record {
    id = name <> "-" <> itoa now;
    rule = rule;
    status = active;
    connected_at = some now;
    bytes_sent = 0;
    bytes_received = 0;
    reconnect_count = 0;
    last_error = "";
  };
  listener = open_listening;
  cancelled = false;
  sent = 0;
  received = 0;
  starting = false;
}

-- The last locked section of StartForward, and the event behind it.
unfoldable pub start_commit : String → ForwardRule → ℕ → Manager → Manager
unfolding announce
start_commit name rule now m =
    announce
      (record {
        type = forward_started;
        rule_name = name;
        session = some (started name rule now).session;
        error = none;
      })
      (record m {
        active = put m.active name m.next_ref;
        heap = write m.heap m.next_ref (started name rule now);
        next_ref = m.next_ref + 1;
      })

module _ (ssh : SshPort) where
  open_listener : ssh.State → ForwardRule → Option Error
  unfolding listen_call
  open_listener s rule = ssh.listen s rule.host (listen_call rule.type rule)

  unfoldable pub obtain : ssh.State → ForwardRule → Result (Unit {0})
  unfolding open_listener
  obtain s rule = do
    check_as "failed to get SSH connection" (ssh.get_ssh_connection s rule.host)
    check_as "failed to get SSH client" (ssh.get_connection s rule.host)
    check_as "failed to create listener" (open_listener s rule)

  after_connect : Option Error × ssh.State → ForwardRule → Result (Unit {0}) × ssh.State
  unfolding obtain
  after_connect (some e, s) rule = (err (wrap ("failed to connect to host " <> rule.host) e), s)
  after_connect (none, s) rule = (obtain s rule, s)

  -- StartForward between its locked sections.
  unfoldable pub start_connect : ssh.State → ForwardRule → Result (Unit {0}) × ssh.State
  unfolding after_connect
  start_connect s rule =
      if ssh.is_connected s rule.host
      then (obtain s rule, s)
      else after_connect (ssh.connect_with_callback s rule.host) rule

  unfoldable pub start_finish :
      String
      → ForwardRule
      → ℕ
      → Manager
      → Result (Unit {0}) × ssh.State
      → Option Error × ssh.State × Manager
  start_finish name rule now m (err e, s) = (some e, s, start_cleanup name m)
  start_finish name rule now m (ok u, s) = (none, s, start_commit name rule now m)

  unfoldable pub start_reserved :
      String → ℕ → ssh.State → Result ForwardRule × Manager → Option Error × ssh.State × Manager
  unfolding start_finish
  start_reserved name now s (err e, m) = (some e, s, m)
  start_reserved name now s (ok rule, m) = start_finish name rule now m (start_connect s rule)

  -- StartForward, with nothing in between its locked sections.
  unfoldable pub start_forward :
      String → ℕ → ssh.State → Manager → Option Error × ssh.State × Manager
  unfolding start_reserved
  start_forward name now s m = start_reserved name now s (start_reserve name m)

-- The session as stopForwardLocked leaves it.
abbrev pub stopped_forward : ActiveForward → ActiveForward
stopped_forward af = record af {
  listener = closed_listening;
  cancelled = true;
  session = record (snapshot af) { status = stopped };
}

-- stopForwardLocked
unfoldable pub stop_forward_locked : String → Manager → Option ForwardSession × Manager
stop_forward_locked name m = elim (m.active name) [
  | none ↦ (none, m)
  | some p ↦ if (m.heap p).starting then (none, record m { active = delete m.active name }) else (
    some (stopped_forward (m.heap p)).session,
    record m { active = delete m.active name; heap = write m.heap p (stopped_forward (m.heap p)) },
  )
]

-- `if session != nil { m.events.Emit(...) }`
unfoldable pub emit_stopped : String → Option ForwardSession → Manager → Manager
unfolding announce
emit_stopped name none m = m
emit_stopped name (some s) m =
    announce (record { type = forward_stopped; rule_name = name; session = some s; error = none }) m

-- StopForward, whose error is always nil
unfoldable pub stop_forward : String → Manager → Manager
unfolding stop_forward_locked emit_stopped
stop_forward name m = let (session, m') = stop_forward_locked name m in emit_stopped name session m'

-- StopAllForwards: `names` are the keys of `active` in the order of the `range` loop
unfoldable pub stop_all_forwards : List String → Manager → Manager
stop_all_forwards [] m = m
stop_all_forwards (name ∷ names) m = stop_all_forwards names (stop_forward name m)

-- DeleteRule
unfoldable pub delete_rule : String → Manager → Option Error × Manager
unfolding stop_forward_locked emit_stopped remove_first
delete_rule name m = elim (m.rules name) [
  | none ↦ (some (not_found "rule" name), m)
  | some rule ↦
      let (session, m') = stop_forward_locked name m in
      (
        none,
        emit_stopped name session (record m' {
          rules = delete m'.rules name;
          rule_order = remove_first name m'.rule_order;
        }),
      )
]

-- Close
unfoldable pub close : List String → Manager → Manager
unfolding stop_all_forwards close_subscribers
close names m =
    let m' = stop_all_forwards names m in
    record m' { closed = true; events = close_subscribers m'.events }
