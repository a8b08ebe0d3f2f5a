-- ===== src/Forward/Requests.antt =====
-- internal/core/forward: any sequence of operations, one after the other, on a new manager.
use mole_port.Base.{List, String, [], arith, refl, ℕ, ◌∷◌}
use mole_port.Core.Models.{ForwardRule}
use mole_port.Core.SshPort.{SshPort}
use mole_port.Forward.State.{Manager, add_subscriber, new}
use mole_port.Forward.Rules.{add_rule}
use mole_port.Forward.Lifecycle.{delete_rule, start_forward, stop_all_forwards, stop_forward}
use mole_port.Forward.Reconnect.{fail_reconnecting, mark_reconnecting, restore_forwards}
use mole_port.Forward.Invariant.{IsValid}
use mole_port.Forward.Operations.Rules.{add_rule-IsValid, delete_rule-IsValid, stop_forward-IsValid}
use mole_port.Forward.Operations.Starts.{start_forward-IsValid}
use mole_port.Forward.Operations.Loops.{
  SameState-IsValid, fail_reconnecting-IsValid, mark_reconnecting-IsValid,
  stop_all_forwards-IsValid,
}
use mole_port.Forward.Operations.Restores.{restore_forwards-IsValid}

-- The methods of the manager that change it. A list of names is an order of a `range` loop.
pub data Request : Type 0 where
  adding : ForwardRule → Request
  deleting stopping : String → Request
  starting_at : String → ℕ → Request
  stopping_all : List String → Request
  marking failing restoring : String → List String → Request
  subscribing : Request

-- A new manager has nothing to keep in step.
pub new-IsValid : IsValid new
unfolding new
new-IsValid = record {
  wired = record {
    allocated = λ a p h. cc;
    apart = λ a b p h. cc;
    named = λ a p h. cc;
    listening = λ a p h. cc;
    resting = λ a p h. cc;
  };
  no_leak = λ p h. absurd (omega arith);
  only_rules = λ a h. absurd (h refl);
  ordered = record {
    own_name = λ a r h. cc;
    listed = λ a h. absurd (h refl);
    known = λ a i. absurd i;
    once = tt;
  };
}

module _ (quote : String → String) (ssh : SshPort) where
  -- The SSH manager's state goes along where the method calls it.
  pub serve : Request → ssh.State × Manager → ssh.State × Manager
  unfolding start_forward
  serve (adding rule) (s, m) = (s, (add_rule rule m).1)
  serve (deleting name) (s, m) = (s, (delete_rule name m).1)
  serve (stopping name) (s, m) = (s, stop_forward name m)
  serve (starting_at name now) (s, m) =
      let result = start_forward ssh name now s m in (result.1, result.2)
  serve (stopping_all names) (s, m) = (s, stop_all_forwards names m)
  serve (marking host names) (s, m) = (s, mark_reconnecting host names m)
  serve (failing host names) (s, m) = (s, fail_reconnecting host names m)
  serve (restoring host names) (s, m) = (s, (restore_forwards quote ssh host names s m).1)
  serve subscribing (s, m) = (s, add_subscriber m)

  pub serve_all : List Request → ssh.State × Manager → ssh.State × Manager
  serve_all [] x = x
  serve_all (r ∷ rs) x = serve_all rs (serve r x)

  pub serve-IsValid :
      (r : Request) (s : ssh.State) {m : Manager} → IsValid m → IsValid (serve r (s, m)).1
  unfolding serve
  serve-IsValid (adding rule) s v = add_rule-IsValid rule v
  serve-IsValid (deleting name) s v = delete_rule-IsValid name v
  serve-IsValid (stopping name) s v = stop_forward-IsValid name v
  serve-IsValid (starting_at name now) s v = start_forward-IsValid ssh name now s v
  serve-IsValid (stopping_all names) s v = stop_all_forwards-IsValid names v
  serve-IsValid (marking host names) s v = mark_reconnecting-IsValid host names v
  serve-IsValid (failing host names) s v = fail_reconnecting-IsValid host names v
  serve-IsValid (restoring host names) s v = restore_forwards-IsValid quote ssh s host names v
  serve-IsValid subscribing s v =
      unfold add_subscriber in
      SameState-IsValid (record { active = refl; heap = refl; next_ref = refl }) refl refl v

  serve_all_from :
      (rs : List Request) (x : ssh.State × Manager) → IsValid x.1 → IsValid (serve_all rs x).1
  unfolding serve_all
  serve_all_from [] x v = v
  serve_all_from (r ∷ rs) (s, m) v = serve_all_from rs (serve r (s, m)) (serve-IsValid r s v)

  -- Whatever requests a new manager serves, one after the other, and however the SSH manager answers:
  -- the map of active forwards and the heap agree, no open listener is lost, only names of rules are
  -- active, and the rules are listed once each in the order that is kept beside them.
  pub serve_all-IsValid : (rs : List Request) (s : ssh.State) → IsValid (serve_all rs (s, new)).1
  serve_all-IsValid rs s = serve_all_from rs (s, new) new-IsValid
