-- ===== src/Forward/Operations/Starts.antt =====
-- internal/core/forward/lifecycle.go: StartForward on a valid manager, whatever the SSH manager does.
use mole_port.Forward.Operations.Rules.{IsOrdered-same}
use mole_port.Base.{String, arith, eq_iff, eq_refl, none, refl, some, true, ℕ, ◌≡◌, ◌≢◌}
use mole_port.Core.Models.{ForwardRule}
use mole_port.Core.Errors.{Error, Result, err, ok}
use mole_port.Core.SshPort.{SshPort}
use mole_port.Forward.Invariant.Starting.{
  start_cleanup-IsWired, start_cleanup-NoLeak, start_commit-IsWired, start_commit-NoLeak,
  start_reserve-IsWired, start_reserve-NoLeak,
}
use mole_port.Forward.State.{Manager}
use mole_port.Forward.Invariant.{IsValid, OnlyRules}
use mole_port.Forward.Lifecycle.{
  start_cleanup, start_commit, start_connect, start_finish, start_forward, start_reserve,
  start_reserved,
}

-- What a reservation that succeeds has found and left behind.
pub record Reserved (name : String) (rule : ForwardRule) (m n : Manager) : Type 0 where
  pub found : m.rules name ≡ some rule
  pub was_free : m.active name ≡ none
  pub ref : n.active name ≡ some m.next_ref
  pub waiting : (n.heap m.next_ref).starting ≡ true
  pub rules : n.rules ≡ m.rules
  pub rule_order : n.rule_order ≡ m.rule_order

pub start_reserve-Reserved :
    (name : String) (m : Manager) (rule : ForwardRule)
    → (start_reserve name m).0 ≡ ok rule
    → Reserved name rule m (start_reserve name m).1
unfolding start_reserve
start_reserve-Reserved name m rule h = ground (arith, eq_refl name)

-- A reservation that is refused has changed nothing.
pub start_reserve_refused :
    (name : String) (m : Manager) (e : Error)
    → (start_reserve name m).0 ≡ err e
    → (start_reserve name m).1 ≡ m
unfolding start_reserve
start_reserve_refused name m e h = ground arith

pub start_reserve_same :
    (name : String) (m : Manager)
    → ((start_reserve name m).1.rules ≡ m.rules)
      × ((start_reserve name m).1.rule_order ≡ m.rule_order)
unfolding start_reserve
start_reserve_same name m = ground arith

start_reserve-OnlyRules :
    (name : String) (m : Manager) → OnlyRules m → OnlyRules (start_reserve name m).1
unfolding start_reserve
start_reserve-OnlyRules name m h a = ground (arith, h a, eq_iff name a)

pub start_reserve-IsValid :
    (name : String) {m : Manager} → IsValid m → IsValid (start_reserve name m).1
start_reserve-IsValid name {m} v = record {
  wired = start_reserve-IsWired name v.wired;
  no_leak = start_reserve-NoLeak name v.wired v.no_leak;
  only_rules = start_reserve-OnlyRules name m v.only_rules;
  ordered = IsOrdered-same (start_reserve_same name m).0 (start_reserve_same name m).1 v.ordered;
}

pub start_cleanup_same :
    (name : String) (m : Manager)
    → ((start_cleanup name m).rules ≡ m.rules) × ((start_cleanup name m).rule_order ≡ m.rule_order)
unfolding start_cleanup
start_cleanup_same name m = ground arith

start_cleanup-OnlyRules :
    (name : String) (m : Manager) → OnlyRules m → OnlyRules (start_cleanup name m)
unfolding start_cleanup
start_cleanup-OnlyRules name m h a = ground (arith, h a)

pub start_cleanup-IsValid :
    (name : String) {m : Manager} → IsValid m → IsValid (start_cleanup name m)
start_cleanup-IsValid name {m} v = record {
  wired = start_cleanup-IsWired name v.wired;
  no_leak = start_cleanup-NoLeak name v.wired v.no_leak;
  only_rules = start_cleanup-OnlyRules name m v.only_rules;
  ordered = IsOrdered-same (start_cleanup_same name m).0 (start_cleanup_same name m).1 v.ordered;
}

module _ (name : String) (rule : ForwardRule) (now : ℕ) where
  pub start_commit_same :
      (m : Manager)
      → ((start_commit name rule now m).rules ≡ m.rules)
        × ((start_commit name rule now m).rule_order ≡ m.rule_order)
  unfolding start_commit
  start_commit_same m = (refl, refl)

  start_commit-OnlyRules :
      (m : Manager) → m.rules name ≢ none → OnlyRules m → OnlyRules (start_commit name rule now m)
  unfolding start_commit
  start_commit-OnlyRules m there h a = ground (arith, h a, eq_iff name a)

  -- A commit over the placeholder of a rule that is still there.
  pub start_commit-IsValid :
      {m : Manager}
      → m.rules name ≡ some rule
      → ((p : ℕ) → m.active name ≡ some p → (m.heap p).starting ≡ true)
      → IsValid m
      → IsValid (start_commit name rule now m)
  start_commit-IsValid {m} found fresh v =
      let own : rule.name ≡ name = v.ordered.own_name name rule found in
      record {
        wired = start_commit-IsWired name rule now own v.wired;
        no_leak = start_commit-NoLeak name rule now m own fresh v.no_leak;
        only_rules = start_commit-OnlyRules m (λ e. cc (e, found)) v.only_rules;
        ordered = IsOrdered-same (start_commit_same m).0 (start_commit_same m).1 v.ordered;
      }

module _ (ssh : SshPort) (name : String) (now : ℕ) where
  start_finish-IsValid :
      (rule : ForwardRule) {m : Manager}
      → m.rules name ≡ some rule
      → ((p : ℕ) → m.active name ≡ some p → (m.heap p).starting ≡ true)
      → IsValid m
      → (x : Result (Unit {0}) × ssh.State) → IsValid (start_finish ssh name rule now m x).2
  unfolding start_finish
  start_finish-IsValid rule found fresh v (err e, s) = start_cleanup-IsValid name v
  start_finish-IsValid rule found fresh v (ok u, s) =
      start_commit-IsValid name rule now found fresh v

  start_reserved-IsValid :
      (s : ssh.State) (x : Result ForwardRule × Manager)
      → IsValid x.1
      → ((rule : ForwardRule)
          → x.0 ≡ ok rule
          → (x.1.rules name ≡ some rule)
            × ((p : ℕ) → x.1.active name ≡ some p → (x.1.heap p).starting ≡ true))
      → IsValid (start_reserved ssh name now s x).2
  unfolding start_reserved
  start_reserved-IsValid s (err e, m) v r = v
  start_reserved-IsValid s (ok rule, m) v r =
      start_finish-IsValid rule (r rule refl).0 (r rule refl).1 v (start_connect ssh s rule)

  -- Starting a forward keeps the manager valid, whether the SSH manager fails at any of its calls or
  -- not.
  pub start_forward-IsValid :
      (s : ssh.State) {m : Manager} → IsValid m → IsValid (start_forward ssh name now s m).2
  unfolding start_forward
  start_forward-IsValid s {m} v =
      start_reserved-IsValid s (start_reserve name m) (start_reserve-IsValid name v) (λ rule h.
        let r : Reserved name rule m (start_reserve name m).1 =
          start_reserve-Reserved name m rule h in
        (cc (r.rules, r.found), λ p e. ground (arith, r.ref, r.waiting)))
