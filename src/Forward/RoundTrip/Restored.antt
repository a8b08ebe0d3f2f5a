-- ===== src/Forward/RoundTrip/Restored.antt =====
-- internal/core/forward/reconnect.go: RestoreForwards over all the sessions that wait.
use mole_port.Base.{
  ==_iff, Bool-cases, In, List, Option, String, [], arith, eq_iff, inl, inr, none, refl, some, sym,
  true, ℕ, ◌+◌, ◌<◌, ◌==◌, ◌∷◌, ◌≡◌, ◌≢◌,
}
use mole_port.Core.Enums.{active, session_reconnecting}
use mole_port.Core.Models.{ForwardSession}
use mole_port.Core.Errors.{Error, message, ok}
use mole_port.Core.SshPort.{ListenCall, SshPort}
use mole_port.Forward.State.{ActiveForward, Manager}
use mole_port.Forward.Invariant.{IsValid, Rests}
use mole_port.Forward.Lifecycle.{listen_call}
use mole_port.Forward.Reconnect.{
  concerns, mark_reconnecting, marked, restore_each, restore_forwards, restore_listened,
  restore_single, restored, waiting,
}
use mole_port.Forward.RoundTrip.{Holds, IsBack, mark_reconnecting-Holds}
use mole_port.Forward.Sessions.{get_session}
use mole_port.Forward.Operations.Rests.{waiting-Rests}
use mole_port.Forward.Operations.Loops.{mark_reconnecting-IsWired}
use mole_port.Forward.Operations.Restores.{restore_single-Rests}
use mole_port.Forward.RoundTrip.{set_forward_error-Holds}
use mole_port.Forward.RoundTrip.{set_forward_error-IsBack}
use mole_port.Forward.RoundTrip.{In-waiting}
use mole_port.Forward.RoundTrip.{restore_commit_regains}
use mole_port.Forward.RoundTrip.{restore_commit-Holds}
use mole_port.Forward.RoundTrip.{restore_commit-IsBack}

module _ (quote : String → String) (ssh : SshPort) (s : ssh.State) where
  restore_listened-Holds :
      (a : String) (p q : ℕ) (af : ActiveForward) (o : Option Error) {m : Manager}
      → q ≢ p
      → p < m.next_ref
      → Holds a p af m
      → Holds a p af (restore_listened quote ssh o q m).1
  unfolding restore_listened
  restore_listened-Holds a p q af (some e) ne lt h =
      set_forward_error-Holds a p q af (message quote e) ne h
  restore_listened-Holds a p q af none ne lt h = restore_commit-Holds a p q af ne lt h

  restore_listened-IsBack :
      (a : String) (x : ForwardSession) (q : ℕ) (o : Option Error) {m : Manager}
      → Rests m q
      → IsBack a x m
      → IsBack a x (restore_listened quote ssh o q m).1
  unfolding restore_listened
  restore_listened-IsBack a x q (some e) r b = set_forward_error-IsBack a x q (message quote e) r b
  restore_listened-IsBack a x q none r b = restore_commit-IsBack a x q r b

  -- What is back stays back while the others are restored or given up.
  restore_each-IsBack :
      (a : String) (x : ForwardSession) (qs : List ℕ) {m : Manager}
      → ((q : ℕ) → In q qs → Rests m q)
      → IsBack a x m
      → IsBack a x (restore_each quote ssh s none none qs m).1
  unfolding restore_each restore_single
  restore_each-IsBack a x [] r b = b
  restore_each-IsBack a x (q ∷ qs) {m} r b =
      let rule = (m.heap q).session.rule in
      restore_each-IsBack a x qs
        (λ k i. restore_single-Rests quote ssh s none none q k (r k (inr i)))
        (restore_listened-IsBack a x q (ssh.listen s rule.host (listen_call rule.type rule))
          (r q (inl refl)) b)

  module _ (host a : String) (p : ℕ) (af : ActiveForward)
      (listens : (call : ListenCall) → ssh.listen s host call ≡ none)
      (named : af.session.rule.name ≡ a) (at_host : af.session.rule.host ≡ host)
      (waits : af.session.status ≡ session_reconnecting) where
    restore_single_regains :
        {m : Manager}
        → Holds a p af m
        → IsBack a (restored af).session (restore_single quote ssh s none none p m).1
    unfolding restore_single restore_listened
    restore_single_regains {m} h =
        let rule = (m.heap p).session.rule in
        let e : ssh.listen s rule.host (listen_call rule.type rule) ≡ none =
          cc (listens (listen_call rule.type rule), h.leads, at_host) in
        rw (e) (restore_commit_regains a p af named waits h)

    restore_each_regains :
        (qs : List ℕ) {m : Manager}
        → ((q : ℕ) → In q qs → Rests m q)
        → In p qs
        → Holds a p af m
        → IsBack a (restored af).session (restore_each quote ssh s none none qs m).1
    unfolding restore_each
    restore_each_regains [] r i h = absurd i
    restore_each_regains (q ∷ qs) {m} r i h = elim (Bool-cases (q == p)) [
      | inl same ↦
          let e : q ≡ p = (==_iff q p).0 same in
          restore_each-IsBack a (restored af).session qs rests (rw (e) (restore_single_regains h))
      | inr differ ↦
          let ne : q ≢ p = λ e. cc (differ, (==_iff q p).1 e) in
          restore_each_regains qs rests (later i ne) (
            unfold restore_single in
            restore_listened-Holds a p q af
              (ssh.listen s (m.heap q).session.rule.host
                (listen_call (m.heap q).session.rule.type (m.heap q).session.rule))
              ne (r p i).old h)
    ]
      where
        later : In p (q ∷ qs) → q ≢ p → In p qs
        later (inl e) ne = absurd (ne (sym e))
        later (inr j) ne = j

        rests : (k : ℕ) → In k qs → Rests (restore_single quote ssh s none none q m).1 k
        rests k j = restore_single-Rests quote ssh s none none q k (r k (inr j))

-- What GetSession reports once a lost connection is back: the old session, one reconnection later.
-- The counters start from 0, as those of the new activeForward do.
abbrev pub resumed : ForwardSession → ForwardSession
resumed x = record x {
  status = active;
  bytes_sent = 0;
  bytes_received = 0;
  reconnect_count = x.reconnect_count + 1;
  last_error = "";
}

get_session-IsBack :
    (a : String) (x : ForwardSession) {m : Manager}
    → IsBack a x m
    → get_session a m ≡ ok (record x { bytes_sent = 0; bytes_received = 0 })
unfolding get_session
get_session-IsBack a x b = ground (arith, b.held, b.running, b.counters, b.session)

module _ (quote : String → String) (ssh : SshPort) (s : ssh.State) where
  -- A session that is active for a host, that the loops of MarkReconnecting and RestoreForwards both
  -- come by, and for whose host the SSH manager then hands out a connection and opens listeners, is
  -- reported as before, with the same identifier, rule and start, one reconnection more and its
  -- counters of bytes at 0.
  pub restore_forwards-mark_reconnecting :
      (host a : String) (p : ℕ) (names later : List String) {m : Manager}
      → IsValid m
      → m.active a ≡ some p
      → concerns host active (m.heap p) ≡ true
      → In a names
      → In a later
      → ssh.get_ssh_connection s host ≡ none
      → ssh.get_connection s host ≡ none
      → ((call : ListenCall) → ssh.listen s host call ≡ none)
      → get_session a (restore_forwards quote ssh host later s (mark_reconnecting host names m)).1
        ≡ ok (resumed (m.heap p).session)
  unfolding restore_forwards
  restore_forwards-mark_reconnecting host a p names later {m} v held t i j conn client listens =
      let marked_ =
        mark_reconnecting-Holds host a p (m.heap p) names v.wired i t
          (record { held = held; leads = refl }) in
      let w = mark_reconnecting-IsWired host names v.wired in
      let back =
        restore_each_regains quote ssh s host a p (marked (m.heap p)) listens
          (v.wired.named a p held (ground arith)) (concerns-host host (m.heap p) t) refl
          (waiting host later (mark_reconnecting host names m)) (waiting-Rests host later w)
          (In-waiting host a p (marked (m.heap p)) later j (ground arith) marked_) marked_ in
      rw (conn, client) (get_session-IsBack a (restored (marked (m.heap p))).session back)
    where
      concerns-host :
          (h : String) (af : ActiveForward) → concerns h active af ≡ true → af.session.rule.host ≡ h
      concerns-host h af t = ground (arith, eq_iff af.session.rule.host h)
