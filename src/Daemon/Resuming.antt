-- ===== src/Daemon/Resuming.antt =====
-- internal/daemon/daemon_state.go: what the routing of SSH events does for the forwards of a host.
use mole_port.Base.{
  All, Bool, In, List, String, [], arith, eq_refl, false, none, refl, some, true, ℕ, ◌∷◌, ◌≡◌,
}
use mole_port.Core.Enums.{active}
use mole_port.Core.Errors.{Result, ok}
use mole_port.Core.Events.{
  SshEventType, ssh_connected, ssh_disconnected, ssh_error, ssh_pending_auth, ssh_reconnecting,
}
use mole_port.Core.Models.{ForwardRule}
use mole_port.Core.SshPort.{ListenCall, SshPort}
use mole_port.Forward.State.{Manager}
use mole_port.Forward.Sessions.{get_session}
use mole_port.Forward.Reconnect.{concerns, mark_reconnecting}
use mole_port.Forward.Invariant.{IsValid}
use mole_port.Forward.Operations.Loops.{fail_reconnecting-IsValid, mark_reconnecting-IsValid}
use mole_port.Forward.Operations.Restores.{restore_forwards-IsValid}
use mole_port.Forward.RoundTrip.Restored.{restore_forwards-mark_reconnecting, resumed}
use mole_port.Daemon.Routing.{Router, flag, route}
use mole_port.Daemon.Startup.{
  auto_start_forwards, auto_start_forwards-IsValid, restore_state, restore_state-IsValid,
}

-- An event of the loop, with the order of the names and the SSH manager's state at its turn.
pub data Turn (S : Type 0) : Type 0 where
  turn : SshEventType → String → List String → S → Turn S

module _ (quote : String → String) (ssh : SshPort) where
  unfoldable pub route_all : List (Turn ssh.State) → Router → Router
  unfolding route
  route_all [] r = r
  route_all (turn type host names s ∷ es) r = route_all es (route quote ssh type host names s r)

  route-IsValid :
      (type : SshEventType) (host : String) (names : List String) (s : ssh.State) (r : Router)
      → IsValid r.forwards
      → IsValid (route quote ssh type host names s r).forwards
  unfolding route
  route-IsValid ssh_reconnecting host names s r v = mark_reconnecting-IsValid host names v
  route-IsValid ssh_connected host names s r v =
      ground (arith, v, restore_forwards-IsValid quote ssh s host names v)
  route-IsValid ssh_error host names s r v =
      ground (arith, v, fail_reconnecting-IsValid host names v)
  route-IsValid ssh_disconnected host names s r v = v
  route-IsValid ssh_pending_auth host names s r v = v

  route_all-IsValid :
      (es : List (Turn ssh.State)) (r : Router)
      → IsValid r.forwards
      → IsValid (route_all es r).forwards
  unfolding route_all
  route_all-IsValid [] r v = v
  route_all-IsValid (turn type host names s ∷ es) r v =
      route_all-IsValid es _ (route-IsValid type host names s r v)

  -- The forward manager stays well-formed when the daemon starts the saved rules, then those of the
  -- configuration, and then routes any SSH events, whatever the SSH manager answers.
  daemon_run-IsValid :
      (clock : String → ℕ) (on : Bool) (state : Result (List ForwardRule))
      (rules : List ForwardRule) (es : List (Turn ssh.State)) (s : ssh.State) (m : Manager)
      → IsValid m
      → IsValid
          (route_all es (record {
            reconnecting = λ h. false;
            forwards =
                (auto_start_forwards ssh clock rules (restore_state ssh clock on state (s, m))).1;
          })).forwards
  daemon_run-IsValid clock on state rules es s m v = route_all-IsValid es _ (
      auto_start_forwards-IsValid ssh clock rules _ _
        (restore_state-IsValid ssh clock on state s m v))

-- Events that the switch has no case for.
abbrev pub IsPassedBy : {S : Type 0} → Turn S → Type 0
IsPassedBy (turn ssh_disconnected host names s) = Unit
IsPassedBy (turn ssh_pending_auth host names s) = Unit
IsPassedBy (turn _ host names s) = ⊥

module _ (quote : String → String) (ssh : SshPort) where
  route_all-passed :
      (es : List (Turn ssh.State)) (r : Router) → All IsPassedBy es → route_all quote ssh es r ≡ r
  unfolding route_all route
  route_all-passed [] r p = refl
  route_all-passed (turn ssh_disconnected host names s ∷ es) r (p, ps) = route_all-passed es r ps
  route_all-passed (turn ssh_pending_auth host names s ∷ es) r (p, ps) = route_all-passed es r ps
  route_all-passed (turn ssh_reconnecting host names s ∷ es) r (p, ps) = elim p [ ]
  route_all-passed (turn ssh_connected host names s ∷ es) r (p, ps) = elim p [ ]
  route_all-passed (turn ssh_error host names s ∷ es) r (p, ps) = elim p [ ]

  -- When a host is reported as reconnecting and, behind events that the routing passes by, as connected
  -- again, a session that was active for the host is reported as before, with one reconnection more and
  -- its counters of bytes at 0, provided that the SSH manager then hands out the connection and opens
  -- listeners. A further report of the host as connected changes nothing.
  pub route-resumes :
      (host a : String) (p : ℕ) (names later : List String) (s t : ssh.State)
      (between : List (Turn ssh.State)) (r : Router)
      → IsValid r.forwards
      → r.forwards.active a ≡ some p
      → concerns host active (r.forwards.heap p) ≡ true
      → In a names
      → In a later
      → All IsPassedBy between
      → ssh.get_ssh_connection t host ≡ none
      → ssh.get_connection t host ≡ none
      → ((call : ListenCall) → ssh.listen t host call ≡ none)
      → let back =
          route quote ssh ssh_connected host later t
            (route_all quote ssh (turn ssh_reconnecting host names s ∷ between) r) in
        (get_session a back.forwards ≡ ok (resumed (r.forwards.heap p).session))
        × (route quote ssh ssh_connected host later t back ≡ back)
  unfolding route_all route
  route-resumes host a p names later s t between r v held c i j passed conn client listens =
      let marked_router : Router = record {
        reconnecting = flag r.reconnecting host true;
        forwards = mark_reconnecting host names r.forwards;
      } in
      let resumed_ =
        restore_forwards-mark_reconnecting quote ssh t host a p names later v held c i j conn client
          listens in
      rw (route_all-passed between marked_router passed) (ground (arith, eq_refl host, resumed_))
