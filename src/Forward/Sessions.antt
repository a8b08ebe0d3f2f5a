-- ===== src/Forward/Sessions.antt =====
-- internal/core/forward/manager.go: what GetSession and GetAllSessions report.
use mole_port.Base.{List, Option, String, [], if◌then◌else◌, none, some, ◌∷◌}
use mole_port.Core.Models.{ForwardRule, ForwardSession, stopped_session}
use mole_port.Core.Errors.{Result, err, not_found, ok}
use mole_port.Forward.State.{ActiveForward, Manager}

-- A copy of the session with the counters of the moment.
abbrev pub snapshot : ActiveForward → ForwardSession
snapshot af = record (af.session) { bytes_sent = af.sent; bytes_received = af.received }

-- `af, exists := m.active[name]; exists && !af.starting`
unfoldable pub running : Manager → String → Option ActiveForward
running m name = elim (m.active name) [
  | none ↦ none
  | some p ↦ if (m.heap p).starting then none else some (m.heap p)
]

-- GetSession
unfoldable pub get_session : String → Manager → Result ForwardSession
unfolding running
get_session name m = elim (running m name) [
  | some af ↦ ok (snapshot af)
  | none ↦ elim (m.rules name) [
    | none ↦ err (not_found "rule" name)
    | some rule ↦ ok (stopped_session rule)
  ]
]

session_of : Manager → String → ForwardRule → ForwardSession
unfolding running
session_of m name rule = elim (running m name) [
  | some af ↦ snapshot af
  | none ↦ stopped_session rule
]

-- The loop of GetAllSessions.
unfoldable pub collect_sessions : Manager → List String → List ForwardSession
unfolding session_of
collect_sessions m [] = []
collect_sessions m (name ∷ names) =
    let rest = collect_sessions m names in
    elim (m.rules name) [ none ↦ rest | some rule ↦ session_of m name rule ∷ rest ]

unfoldable pub get_all_sessions : Manager → List ForwardSession
unfolding collect_sessions
get_all_sessions m = collect_sessions m m.rule_order
