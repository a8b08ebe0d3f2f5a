-- ===== src/Forward/Interleaving.antt =====
-- internal/core/forward: the locked sections of the methods in any order, as goroutines run them.
-- A start that has reserved its name and a restore that has collected its sessions are remembered
-- until they come back. They may come back more than once, which only adds behaviour.
use mole_port.Base.{In, List, String, [], ap, inl, inr, refl, ℕ, ◌++◌, ◌∷◌, ◌≡◌, ◌⊎◌}
use mole_port.Core.Models.{ForwardRule}
use mole_port.Core.Errors.{Result, err, ok}
use mole_port.Forward.State.{Manager, new}
use mole_port.Forward.Rules.{add_rule}
use mole_port.Forward.Lifecycle.{
  delete_rule, start_cleanup, start_commit, start_reserve, stop_forward,
}
use mole_port.Forward.Reconnect.{
  fail_reconnecting, mark_reconnecting, restore_commit, set_forward_error, waiting,
}
use mole_port.Forward.Invariant.{IsOrdered, IsWired, Rests}
use mole_port.Forward.Invariant.Naming.{add_rule-IsOrdered, delete_rule-IsOrdered}
use mole_port.Forward.Operations.Rules.{
  IsOrdered-same, SameSessions-IsWired, add_rule_same, delete_rule-IsWired,
}
use mole_port.Forward.Operations.Starts.{
  start_cleanup_same, start_commit_same, start_reserve-Reserved, start_reserve_same,
}
use mole_port.Forward.Operations.Rests.{
  add_rule-Rests, delete_rule-Rests, fail_reconnecting-Rests, mark_reconnecting-Rests,
  restore_commit-Rests, set_forward_error-Rests, start_cleanup-Rests, start_commit-Rests,
  start_reserve-Rests, stop_forward-Rests, waiting-Rests,
}
use mole_port.Forward.Requests.{new-IsValid}
use mole_port.Forward.Invariant.Starting.{
  start_cleanup-IsWired, start_commit-IsWired, start_reserve-IsWired,
}
use mole_port.Forward.Invariant.Stopping.{
  rule_order-stop_forward, rules-stop_forward, stop_forward-IsWired,
}
use mole_port.Forward.Invariant.Reconnecting.{restore_commit-IsWired, set_forward_error-IsWired}
use mole_port.Forward.Operations.Loops.{
  fail_reconnecting-IsOrdered, fail_reconnecting-IsWired, mark_reconnecting-IsOrdered,
  mark_reconnecting-IsWired,
}
use mole_port.Forward.Operations.Restores.{restore_commit_same, set_forward_error_same}

pub record Config : Type 0 where
  pub manager : Manager
  pub pending : List (String × ForwardRule)
  pub targets : List ℕ

abbrev at : Config → Manager → Config
at c m = record c { manager = m }

abbrev remember :
    String → Result ForwardRule → List (String × ForwardRule) → List (String × ForwardRule)
remember name (ok rule) l = (name, rule) ∷ l
remember name (err e) l = l

pub data Step (c : Config) : Config → Type 0 where
  add : (rule : ForwardRule) → Step c (at c (add_rule rule c.manager).1)
  remove : (name : String) → Step c (at c (delete_rule name c.manager).1)
  reserve :
      (name : String)
      → Step c (record c {
        manager = (start_reserve name c.manager).1;
        pending = remember name (start_reserve name c.manager).0 c.pending;
      })
  commit :
      (name : String) (rule : ForwardRule) (now : ℕ)
      → In (name, rule) c.pending
      → Step c (at c (start_commit name rule now c.manager))
  cleanup : (name : String) → Step c (at c (start_cleanup name c.manager))
  stop : (name : String) → Step c (at c (stop_forward name c.manager))
  mark :
      (host : String) (names : List String) → Step c (at c (mark_reconnecting host names c.manager))
  fail :
      (host : String) (names : List String) → Step c (at c (fail_reconnecting host names c.manager))
  collect :
      (host : String) (names : List String)
      → Step c (record c { targets = waiting host names c.manager ++ c.targets })
  give_up :
      (p : ℕ) (text : String) → In p c.targets → Step c (at c (set_forward_error p text c.manager))
  restore : (p : ℕ) → In p c.targets → Step c (at c (restore_commit p c.manager).1)

pub data Reach (c : Config) : Config → Type 0 where
  here : Reach c c
  next : {d e : Config} → Reach c d → Step d e → Reach c e

abbrev pub start : Config
start = record { manager = new; pending = []; targets = [] }

pub record IsCoherent (c : Config) : Type 0 where
  pub wired : IsWired c.manager
  pub ordered : IsOrdered c.manager
  pub own : (name : String) (rule : ForwardRule) → In (name, rule) c.pending → rule.name ≡ name
  pub down : (p : ℕ) → In p c.targets → Rests c.manager p

start_reserve-own :
    (name : String) {m : Manager} (l : List (String × ForwardRule))
    → IsOrdered m
    → ((n : String) (r : ForwardRule) → In (n, r) l → r.name ≡ n)
    → (n : String) (r : ForwardRule) → In (n, r) (remember name (start_reserve name m).0 l)
    → r.name ≡ n
start_reserve-own name {m} l o own n r =
    from_result (start_reserve name m).0
      (λ rule h. o.own_name name rule (start_reserve-Reserved name m rule h).found)
  where
    from_result :
        (x : Result ForwardRule)
        → ((rule : ForwardRule) → x ≡ ok rule → rule.name ≡ name)
        → In (n, r) (remember name x l)
        → r.name ≡ n
    from_result (err e) f i = own n r i
    from_result (ok rule) f (inl e) = cc (
      f rule refl,
      ap (λ (x : String × ForwardRule). x.0) e,
      ap (λ (x : String × ForwardRule). x.1.name) e,
    )
    from_result (ok rule) f (inr i) = own n r i

-- What is in two lists put together is in one of them.
In-either : (p : ℕ) (xs ys : List ℕ) → In p (xs ++ ys) → In p xs ⊎ In p ys
In-either p [] ys i = inr i
In-either p (x ∷ xs) ys (inl e) = inl (inl e)
In-either p (x ∷ xs) ys (inr i) = elim (In-either p xs ys i) [ inl a ↦ inl (inr a) | inr b ↦ inr b ]

Step-IsCoherent : {c d : Config} → Step c d → IsCoherent c → IsCoherent d
Step-IsCoherent {c} (add rule) h = record {
  wired = SameSessions-IsWired (add_rule_same rule c.manager) h.wired;
  ordered = add_rule-IsOrdered rule h.ordered;
  own = h.own;
  down = λ p i. add_rule-Rests p (h.down p i) rule;
}
Step-IsCoherent {c} (remove name) h = record {
  wired = delete_rule-IsWired name h.wired;
  ordered = delete_rule-IsOrdered name h.ordered;
  own = h.own;
  down = λ p i. delete_rule-Rests p (h.down p i) name;
}
Step-IsCoherent {c} (reserve name) h =
    let e = start_reserve_same name c.manager in
    record {
      wired = start_reserve-IsWired name h.wired;
      ordered = IsOrdered-same e.0 e.1 h.ordered;
      own = start_reserve-own name c.pending h.ordered h.own;
      down = λ p i. start_reserve-Rests p (h.down p i) name;
    }
Step-IsCoherent {c} (commit name rule now i) h =
    let e = start_commit_same name rule now c.manager in
    record {
      wired = start_commit-IsWired name rule now (h.own name rule i) h.wired;
      ordered = IsOrdered-same e.0 e.1 h.ordered;
      own = h.own;
      down = λ p i. start_commit-Rests p (h.down p i) name rule now;
    }
Step-IsCoherent {c} (cleanup name) h =
    let e = start_cleanup_same name c.manager in
    record {
      wired = start_cleanup-IsWired name h.wired;
      ordered = IsOrdered-same e.0 e.1 h.ordered;
      own = h.own;
      down = λ p i. start_cleanup-Rests p (h.down p i) name;
    }
Step-IsCoherent {c} (stop name) h = record {
  wired = stop_forward-IsWired name h.wired;
  ordered =
      IsOrdered-same (rules-stop_forward name c.manager) (rule_order-stop_forward name c.manager)
        h.ordered;
  own = h.own;
  down = λ p i. stop_forward-Rests p (h.down p i) name;
}
Step-IsCoherent {c} (mark host names) h = record {
  wired = mark_reconnecting-IsWired host names h.wired;
  ordered = mark_reconnecting-IsOrdered host names h.ordered;
  own = h.own;
  down = λ p i. mark_reconnecting-Rests p host names (h.down p i);
}
Step-IsCoherent {c} (fail host names) h = record {
  wired = fail_reconnecting-IsWired host names h.wired;
  ordered = fail_reconnecting-IsOrdered host names h.ordered;
  own = h.own;
  down = λ p i. fail_reconnecting-Rests p host names (h.down p i);
}
Step-IsCoherent {c} (collect host names) h = record {
  wired = h.wired;
  ordered = h.ordered;
  own = h.own;
  down = λ p i. elim (In-either p (waiting host names c.manager) c.targets i) [
    | inl new_ ↦ waiting-Rests host names h.wired p new_
    | inr old ↦ h.down p old
  ];
}
Step-IsCoherent {c} (give_up q text t) h =
    let e = set_forward_error_same q text c.manager in
    record {
      wired = set_forward_error-IsWired q text h.wired;
      ordered = IsOrdered-same e.0 e.1 h.ordered;
      own = h.own;
      down = λ p i. set_forward_error-Rests p (h.down p i) q text;
    }
Step-IsCoherent {c} (restore q t) h =
    let e = restore_commit_same q c.manager in
    record {
      wired = restore_commit-IsWired q h.wired;
      ordered = IsOrdered-same e.0 e.1 h.ordered;
      own = h.own;
      down = λ p i. restore_commit-Rests p (h.down p i) q;
    }

start-IsCoherent : IsCoherent start
start-IsCoherent = record {
  wired = new-IsValid.wired;
  ordered = new-IsValid.ordered;
  own = λ name rule i. absurd i;
  down = λ p i. absurd i;
}

-- In every interleaving of the locked sections from a new manager, the map of active forwards agrees
-- with the heap, the rules with their order, and a session that a restore still waits for is down.
pub Reach-IsCoherent : {c : Config} → Reach start c → IsCoherent c
Reach-IsCoherent here = start-IsCoherent
Reach-IsCoherent (next r s) = Step-IsCoherent s (Reach-IsCoherent r)
