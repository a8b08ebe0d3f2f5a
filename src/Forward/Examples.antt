-- ===== src/Forward/Examples.antt =====
-- internal/core/forward: the theorems at one rule, `web`, over an SSH manager that always answers.
use mole_port.Base.{
  In, List, String, [], arith, eq_iff, false, inl, none, pos, refl, some, true, ℕ, ◌++◌, ◌<◌, ◌∷◌,
  ◌≡◌, ◌≢◌,
}
use mole_port.Core.Enums.{local}
use mole_port.Core.Models.{ForwardRule}
use mole_port.Core.Errors.{err, not_found, ok, other}
use mole_port.Core.SshPort.{SshPort}
use mole_port.Forward.State.{Manager, new, open_listening}
use mole_port.Forward.Rules.{add_rule, get_rules}
use mole_port.Forward.Sessions.{get_all_sessions, get_session}
use mole_port.Forward.Lifecycle.{
  delete_rule, start_commit, start_connect, start_forward, start_reserve, started,
  stop_all_forwards, stop_forward,
}
use mole_port.Forward.Reconnect.{mark_reconnecting, restore_forwards}
use mole_port.Forward.Invariant.{IsValid}
use mole_port.Forward.Requests.{
  Request, adding, marking, new-IsValid, restoring, serve_all, serve_all-IsValid, starting_at,
}
use mole_port.Forward.Interleaving.{
  Config, IsCoherent, Reach, Reach-IsCoherent, Step, add, here, next, remove, start,
}
use mole_port.Forward.Operations.Rules.{add_rule-IsValid}
use mole_port.Forward.Operations.Starts.{start_forward-IsValid}
use mole_port.Forward.Outcomes.Adding.{IsUsable, get_rules-add_rule}
use mole_port.Forward.Outcomes.Deleting.{get_rules-delete_rule, without}
use mole_port.Forward.Outcomes.Stopping.{stop_all_forwards-closes}
use mole_port.Forward.RoundTrip.Restored.{restore_forwards-mark_reconnecting, resumed}
use mole_port.Forward.Races.{
  start_around_delete, start_around_delete_orphan, start_twice, start_twice_leak,
}
use mole_port.Forward.Interleaving.{reserve}
use mole_port.Forward.Interleaving.{commit}

abbrev web : ForwardRule
web = record {
  name = "web";
  host = "prod";
  type = local;
  local_port = pos 8080;
  remote_host = "localhost";
  remote_port = pos 80;
  remote_bind_addr = "";
  auto_connect = false;
}

abbrev up : SshPort
up = record {
  State = Unit {0};
  is_connected = λ s host. true;
  connect_with_callback = λ s host. (none, s);
  get_ssh_connection = λ s host. none;
  get_connection = λ s host. none;
  listen = λ s host call. none;
}

abbrev down : SshPort
down = record {
  State = Unit {0};
  is_connected = λ s host. false;
  connect_with_callback = λ s host. (some (other "dial"), s);
  get_ssh_connection = λ s host. none;
  get_connection = λ s host. none;
  listen = λ s host call. none;
}

abbrev plain : String → String
plain s = s

abbrev one_rule : Manager
one_rule = (add_rule web new).1

abbrev serving : Manager
serving = (start_forward up "web" 5 tt one_rule).2

one_rule-IsValid : IsValid one_rule
one_rule-IsValid = add_rule-IsValid web new-IsValid

serving-IsValid : IsValid serving
serving-IsValid = start_forward-IsValid up "web" 5 tt one_rule-IsValid

added : (add_rule web new).0 ≡ ok "web"
unfolding add_rule new
added = refl

there : one_rule.rules "web" ≡ some web
unfolding add_rule new
there = refl

free : one_rule.active "web" ≡ none
unfolding add_rule new
free = refl

-- Without a host the rule is refused.
abbrev no_host : ForwardRule
no_host = record web { host = "" }

refused : (add_rule no_host new).0 ≡ err (other "host is required")
unfolding add_rule new
refused = refl

one_session : get_all_sessions serving ≡ (started "web" web 5).session ∷ []
unfolding get_all_sessions add_rule new start_forward start_connect start_reserve start_commit
one_session = refl

abbrev script : List Request
script =
    adding web
    ∷ starting_at "web" 5
    ∷ marking "prod" ("web" ∷ [])
    ∷ restoring "prod" ("web" ∷ [])
    ∷ []

serve_all-IsValid_example : IsValid (serve_all plain up script (tt, new)).1
serve_all-IsValid_example = serve_all-IsValid plain up script tt

abbrev added_config : Config
added_config = record { manager = one_rule; pending = []; targets = [] }

abbrev reserved_config : Config
reserved_config = record {
  manager = (start_reserve "web" one_rule).1;
  pending = ("web", web) ∷ [];
  targets = [];
}

-- The rule is deleted while its start is between the locked sections, which then commits.
abbrev stale_config : Config
stale_config = record {
  manager = start_around_delete "web" web 5 one_rule;
  pending = ("web", web) ∷ [];
  targets = [];
}

reserving : Step added_config reserved_config
unfolding start_reserve add_rule new
reserving = reserve "web"

trace : Reach start stale_config
trace =
    next (next (next (next here (add web)) reserving) (remove "web"))
      (commit "web" web 5 (inl refl))

Reach-IsCoherent_example : IsCoherent stale_config
Reach-IsCoherent_example = Reach-IsCoherent trace

web_active : serving.active "web" ≡ some 1
unfolding add_rule new start_forward start_connect start_reserve start_commit
web_active = refl

web_runs : (serving.heap 1).session ≡ (started "web" web 5).session
unfolding add_rule new start_forward start_connect start_reserve start_commit
web_runs = refl

restore_forwards-mark_reconnecting_example :
    get_session "web"
      (restore_forwards plain up "prod"
        ("web" ∷ [])
        tt
        (mark_reconnecting "prod" ("web" ∷ []) serving)).1
    ≡ ok (resumed (serving.heap 1).session)
unfolding add_rule new start_forward start_connect start_reserve start_commit
restore_forwards-mark_reconnecting_example =
    restore_forwards-mark_reconnecting plain up tt "prod" "web" 1 ("web" ∷ []) ("web" ∷ [])
      serving-IsValid web_active refl (inl refl) (inl refl) refl refl (λ call. refl)

only_web : (a : String) → serving.active a ≢ none → In a ("web" ∷ [])
unfolding add_rule new start_forward start_connect start_reserve start_commit
only_web a h = inl (ground (arith, eq_iff "web" a))

stop_all_forwards-closes_example :
    ((a : String) → (stop_all_forwards ("web" ∷ []) serving).active a ≡ none)
    × ((p : ℕ)
        → p < serving.next_ref
        → ((stop_all_forwards ("web" ∷ []) serving).heap p).listener ≢ open_listening)
stop_all_forwards-closes_example = stop_all_forwards-closes ("web" ∷ []) serving-IsValid only_web

get_rules-add_rule_example :
    (r : ForwardRule) × (r.name ≡ "web")
    × IsUsable r
    × (get_rules one_rule ≡ get_rules new ++ r ∷ [])
get_rules-add_rule_example = get_rules-add_rule web "web" new-IsValid.ordered added

get_rules-delete_rule_example :
    (get_rules (delete_rule "web" serving).1 ≡ without "web" (get_rules serving))
    × ((delete_rule "web" serving).1.active "web" ≡ none)
    × (get_session "web" (delete_rule "web" serving).1 ≡ err (not_found "rule" "web"))
get_rules-delete_rule_example = get_rules-delete_rule "web" serving-IsValid

there_still : serving.rules "web" ≡ some web
unfolding add_rule new start_forward start_connect start_reserve start_commit
there_still = refl

start_around_delete_orphan_example :
    ((start_around_delete "web" web 5 one_rule).rules "web" ≡ none)
    × (get_session "web" (start_around_delete "web" web 5 one_rule)
        ≡ ok (started "web" web 5).session)
start_around_delete_orphan_example = start_around_delete_orphan "web" web 5 one_rule there free

start_twice_leak_example :
    ((start_reserve "web" (stop_forward "web" (start_reserve "web" one_rule).1)).0 ≡ ok web)
    × ((p : ℕ) × (p < (start_twice "web" web 5 6 one_rule).next_ref)
        × (((start_twice "web" web 5 6 one_rule).heap p).listener ≡ open_listening)
        × ((a : String) → (start_twice "web" web 5 6 one_rule).active a ≢ some p))
start_twice_leak_example = start_twice_leak "web" web 5 6 one_rule one_rule-IsValid there free
