-- ===== src/Forward/Operations/Restores.antt =====
-- internal/core/forward/reconnect.go: RestoreForwards on a valid manager.
use mole_port.Base.{
  In, List, Option, String, [], arith, eq_iff, inl, inr, none, refl, some, ℕ, ◌∷◌, ◌≡◌,
}
use mole_port.Core.Errors.{Error, message}
use mole_port.Core.SshPort.{SshPort}
use mole_port.Forward.State.{Manager}
use mole_port.Forward.Invariant.{IsValid, OnlyRules, Rests}
use mole_port.Forward.Lifecycle.{listen_call}
use mole_port.Forward.Reconnect.{
  restore_commit, restore_each, restore_forwards, restore_listened, restore_single,
  set_forward_error, waiting,
}
use mole_port.Forward.Invariant.Reconnecting.{
  restore_commit-IsWired, restore_commit-NoLeak, set_forward_error-IsWired,
  set_forward_error-NoLeak,
}
use mole_port.Forward.Operations.Rules.{IsOrdered-same}
use mole_port.Forward.Operations.Rests.{
  restore_commit-Rests, set_forward_error-Rests, waiting-Rests,
}

pub set_forward_error_same :
    (p : ℕ) (text : String) (m : Manager)
    → ((set_forward_error p text m).rules ≡ m.rules)
      × ((set_forward_error p text m).rule_order ≡ m.rule_order)
      × ((set_forward_error p text m).active ≡ m.active)
unfolding set_forward_error
set_forward_error_same p text m = (refl, refl, refl)

pub set_forward_error-IsValid :
    (p : ℕ) (text : String) {m : Manager} → IsValid m → IsValid (set_forward_error p text m)
set_forward_error-IsValid p text {m} v =
    let e = set_forward_error_same p text m in
    record {
      wired = set_forward_error-IsWired p text v.wired;
      no_leak = set_forward_error-NoLeak p text m v.no_leak;
      only_rules = rw (e.0, e.2) v.only_rules;
      ordered = IsOrdered-same e.0 e.1 v.ordered;
    }

pub restore_commit_same :
    (p : ℕ) (m : Manager)
    → ((restore_commit p m).1.rules ≡ m.rules) × ((restore_commit p m).1.rule_order ≡ m.rule_order)
unfolding restore_commit
restore_commit_same p m = ground arith

restore_commit-OnlyRules : (p : ℕ) (m : Manager) → OnlyRules m → OnlyRules (restore_commit p m).1
unfolding restore_commit
restore_commit-OnlyRules p m h a = ground (arith, h a, eq_iff (m.heap p).session.rule.name a)

pub restore_commit-IsValid :
    (p : ℕ) {m : Manager} → Rests m p → IsValid m → IsValid (restore_commit p m).1
restore_commit-IsValid p {m} r v =
    let e = restore_commit_same p m in
    record {
      wired = restore_commit-IsWired p v.wired;
      no_leak = restore_commit-NoLeak p m (λ o. cc (o, r.quiet)) v.no_leak;
      only_rules = restore_commit-OnlyRules p m v.only_rules;
      ordered = IsOrdered-same e.0 e.1 v.ordered;
    }

module _ (quote : String → String) (ssh : SshPort) (s : ssh.State) where
  restore_listened-IsValid :
      (o : Option Error) (p : ℕ) {m : Manager}
      → Rests m p
      → IsValid m
      → IsValid (restore_listened quote ssh o p m).1
  unfolding restore_listened
  restore_listened-IsValid (some e) p r v = set_forward_error-IsValid p (message quote e) v
  restore_listened-IsValid none p r v = restore_commit-IsValid p r v

  restore_listened-Rests :
      (o : Option Error) (p q : ℕ) {m : Manager}
      → Rests m q
      → Rests (restore_listened quote ssh o p m).1 q
  unfolding restore_listened
  restore_listened-Rests (some e) p q r = set_forward_error-Rests q r p (message quote e)
  restore_listened-Rests none p q r = restore_commit-Rests q r p

  restore_single-IsValid :
      (conn client : Option Error) (p : ℕ) {m : Manager}
      → Rests m p
      → IsValid m
      → IsValid (restore_single quote ssh s conn client p m).1
  unfolding restore_single
  restore_single-IsValid (some e) client p r v = set_forward_error-IsValid p (message quote e) v
  restore_single-IsValid none (some e) p r v = set_forward_error-IsValid p (message quote e) v
  restore_single-IsValid none none p {m} r v =
      let rule = (m.heap p).session.rule in
      restore_listened-IsValid (ssh.listen s rule.host (listen_call rule.type rule)) p r v

  pub restore_single-Rests :
      (conn client : Option Error) (p q : ℕ) {m : Manager}
      → Rests m q
      → Rests (restore_single quote ssh s conn client p m).1 q
  unfolding restore_single
  restore_single-Rests (some e) client p q r = set_forward_error-Rests q r p (message quote e)
  restore_single-Rests none (some e) p q r = set_forward_error-Rests q r p (message quote e)
  restore_single-Rests none none p q {m} r =
      let rule = (m.heap p).session.rule in
      restore_listened-Rests (ssh.listen s rule.host (listen_call rule.type rule)) p q r

  pub restore_each-IsValid :
      (conn client : Option Error) (ps : List ℕ) {m : Manager}
      → ((p : ℕ) → In p ps → Rests m p)
      → IsValid m
      → IsValid (restore_each quote ssh s conn client ps m).1
  unfolding restore_each
  restore_each-IsValid conn client [] r v = v
  restore_each-IsValid conn client (p ∷ ps) r v =
      restore_each-IsValid conn client ps
        (λ q i. restore_single-Rests conn client p q (r q (inr i)))
        (restore_single-IsValid conn client p (r p (inl refl)) v)

  -- Restoring keeps the manager valid, whichever of its calls of the SSH manager fail.
  pub restore_forwards-IsValid :
      (host : String) (names : List String) {m : Manager}
      → IsValid m
      → IsValid (restore_forwards quote ssh host names s m).1
  unfolding restore_forwards
  restore_forwards-IsValid host names {m} v =
      restore_each-IsValid (ssh.get_ssh_connection s host) (ssh.get_connection s host)
        (waiting host names m) (waiting-Rests host names v.wired) v
