-- ===== src/Daemon/Examples.antt =====
-- A daemon with one rule, whose host drops and comes back.
use mole_port.Forward.RoundTrip.Restored.{resumed}
use mole_port.Base.{
  List, String, [], false, inl, none, pos, refl, some, some-none, sym, true, ◌∙◌, ◌∷◌, ◌≡◌,
}
use mole_port.Core.Enums.{dynamic}
use mole_port.Core.Errors.{ok}
use mole_port.Core.Events.{ssh_connected, ssh_disconnected, ssh_reconnecting}
use mole_port.Core.Models.{ForwardRule}
use mole_port.Core.SshPort.{SshPort}
use mole_port.Forward.State.{Manager, new}
use mole_port.Forward.Rules.{add_rule}
use mole_port.Forward.Sessions.{get_session}
use mole_port.Forward.Lifecycle.{start_commit, start_connect, start_forward, start_reserve}
use mole_port.Forward.Invariant.{IsValid}
use mole_port.Forward.Requests.{new-IsValid}
use mole_port.Forward.Operations.Rules.{add_rule-IsValid}
use mole_port.Forward.Operations.Starts.{start_forward-IsValid}
use mole_port.Daemon.Routing.{Router, route}
use mole_port.Daemon.Starting.{IsAutomatic, auto_start_forwards-IsAutomatic}
use mole_port.Daemon.Startup.{auto_start_forwards}
use mole_port.Daemon.Resuming.{Turn, route-resumes, route_all, turn}

abbrev proxy : ForwardRule
proxy = record {
  name = "proxy";
  host = "prod";
  type = dynamic;
  local_port = pos 1080;
  remote_host = "";
  remote_port = pos 0;
  remote_bind_addr = "";
  auto_connect = true;
}

abbrev reachable : SshPort
reachable = record {
  State = Unit {0};
  is_connected = λ s host. true;
  connect_with_callback = λ s host. (none, s);
  get_ssh_connection = λ s host. none;
  get_connection = λ s host. none;
  listen = λ s host call. none;
}

abbrev plain : String → String
plain s = s

abbrev with_rule : Manager
with_rule = (add_rule proxy new).1

with_rule-IsValid : IsValid with_rule
with_rule-IsValid = add_rule-IsValid proxy new-IsValid

abbrev names : List String
names = "proxy" ∷ []

-- The rule is started, and another that does not connect automatically is not.
abbrev both : List ForwardRule
both = record proxy { name = "web"; auto_connect = false } ∷ proxy ∷ []

abbrev after_start : Unit {0} × Manager
after_start = auto_start_forwards reachable (λ name. 5) both (tt, with_rule)

proxy_before : with_rule.active "proxy" ≡ none
unfolding add_rule new
proxy_before = refl

proxy_started : after_start.1.active "proxy" ≡ some 1
unfolding auto_start_forwards add_rule new start_forward start_reserve start_connect start_commit
    get_session
proxy_started = refl

auto_start_forwards-IsAutomatic_example : IsAutomatic "proxy" both
auto_start_forwards-IsAutomatic_example =
    auto_start_forwards-IsAutomatic reachable (λ name. 5) both tt with_rule "proxy" proxy_before
      (λ e. some-none 1 (sym proxy_started ∙ e))

abbrev running_proxy : Manager
running_proxy = (start_forward reachable "proxy" 5 tt with_rule).2

abbrev router : Router
router = record { reconnecting = λ h. false; forwards = running_proxy }

abbrev still_down : List (Turn (Unit {0}))
still_down = turn ssh_disconnected "prod" names tt ∷ []

abbrev after_return : Router
after_return =
    route plain reachable ssh_connected "prod" names tt
      (route_all plain reachable (turn ssh_reconnecting "prod" names tt ∷ still_down) router)

route-resumes_example :
    (get_session "proxy" after_return.forwards ≡ ok (resumed (running_proxy.heap 1).session))
    × (route plain reachable ssh_connected "prod" names tt after_return ≡ after_return)
unfolding add_rule new start_forward start_connect start_reserve start_commit
route-resumes_example =
    route-resumes plain reachable "prod" "proxy" 1 names names tt tt still_down router
      (start_forward-IsValid reachable "proxy" 5 tt with_rule-IsValid) refl refl (inl refl)
      (inl refl) (tt, tt) refl refl (λ call. refl)
