-- ===== src/Forward/Outcomes/Adding.antt =====
-- internal/core/forward/manager.go: AddRule as its callers see it.
use mole_port.Base.{
  Bool, In, List, Option, String, [], ap₂, arith, eq_iff, inl, inr, negsuc, none, pos, put, put_ne,
  put_self, refl, some, true, ℤ, ◌++◌, ◌∙◌, ◌∷◌, ◌≡◌, ◌≢◌, ◌≤ℤ◌,
}
use mole_port.Core.Enums.{dynamic}
use mole_port.Core.Models.{ForwardRule, max_port, min_port, validate_port}
use mole_port.Core.Errors.{Error, Result, err, ok}
use mole_port.Forward.State.{Manager}
use mole_port.Forward.Rules.{
  accept_rule, add_rule, as_other, assign_name, collect_rules, get_rules, store_rule,
}
use mole_port.Forward.Invariant.{IsOrdered}
use mole_port.Forward.Invariant.Naming.{accept_rule-name, assign_name-IsOrdered}

-- A port that the check lets through.
abbrev pub IsPort : ℤ → Type 0
IsPort p = (pos min_port ≤ℤ p) × (p ≤ℤ pos max_port)

-- What a stored rule satisfies.
pub record IsUsable (r : ForwardRule) : Type 0 where
  pub host : r.host ≢ ""
  pub local_port : IsPort r.local_port
  pub remote_end : r.type ≢ dynamic → IsPort r.remote_port × (r.remote_host ≢ "")

validate_port-IsPort : (p : ℤ) → validate_port p ≡ none → IsPort p
unfolding validate_port
validate_port-IsPort (pos n) h = ground arith
validate_port-IsPort (negsuc n) h = ground arith

as_other-ok : (s : String) (o : Option String) → as_other s o ≡ ok tt → o ≡ none
as_other-ok s none h = refl
as_other-ok s (some t) h = cc

-- A rule is accepted only if it can be used.
pub accept_rule-IsUsable :
    (rule : ForwardRule) (m : Manager) (r : ForwardRule) → accept_rule rule m ≡ ok r → IsUsable r
unfolding accept_rule
accept_rule-IsUsable rule m r h = record {
  host = λ e. ground (arith, eq_iff rule.host "");
  local_port = ground (arith, validate_port-IsPort rule.local_port);
  remote_end = λ e. ground (
    arith,
    validate_port-IsPort rule.remote_port,
    eq_iff rule.remote_host "",
    eq_iff "localhost" "",
  );
}

collect_rules-append :
    (keep : ForwardRule → Bool) (rules : String → Option ForwardRule) (xs ys : List String)
    → collect_rules keep rules (xs ++ ys)
      ≡ collect_rules keep rules xs ++ collect_rules keep rules ys
unfolding collect_rules
collect_rules-append keep rules [] ys = refl
collect_rules-append keep rules (x ∷ xs) ys = ground (arith, collect_rules-append keep rules xs ys)

-- An entry under a name that is not visited makes no difference.
pub collect_rules-put :
    (keep : ForwardRule → Bool) (rules : String → Option ForwardRule) (name : String)
    (r : ForwardRule) (xs : List String)
    → ¬ In name xs
    → collect_rules keep (put rules name r) xs ≡ collect_rules keep rules xs
unfolding collect_rules
collect_rules-put keep rules name r [] h = refl
collect_rules-put keep rules name r (x ∷ xs) h = ground (
  arith,
  collect_rules-put keep rules name r xs (λ i. h (inr i)),
  put_ne rules name x r (λ e. h (inl e)),
)

-- One more rule at the end of the order is one more rule at the end of the list.
pub collect_rules-last :
    (rules : String → Option ForwardRule) (xs : List String) (r : ForwardRule)
    → ¬ In r.name xs
    → collect_rules (λ q. true) (put rules r.name r) (xs ++ r.name ∷ [])
      ≡ collect_rules (λ q. true) rules xs ++ r ∷ []
collect_rules-last rules xs r h =
    collect_rules-append (λ q. true) (put rules r.name r) xs (r.name ∷ [])
    ∙ ap₂ (λ a b. a ++ b) (collect_rules-put (λ q. true) rules r.name r xs h)
        (unfold collect_rules in ground (arith, put_self rules r.name r))

store_rule_outcome :
    (x : Result ForwardRule) {m : Manager} (name : String)
    → IsOrdered m
    → ((r : ForwardRule) → x ≡ ok r → m.rules r.name ≡ none)
    → (store_rule x m).0 ≡ ok name
    → (r : ForwardRule) × (x ≡ ok r)
      × (r.name ≡ name)
      × (get_rules (store_rule x m).1 ≡ get_rules m ++ r ∷ [])
unfolding store_rule get_rules
store_rule_outcome (err e) name o free h = cc
store_rule_outcome (ok r) {m} name o free h = (
  r,
  refl,
  ground arith,
  collect_rules-last m.rules m.rule_order r (λ i. o.known r.name i (free r refl)),
)

get_rules-assign_name :
    (rule : ForwardRule) (m : Manager) → get_rules (assign_name rule m).1 ≡ get_rules m
unfolding get_rules assign_name
get_rules-assign_name rule m = ground arith

-- When AddRule succeeds, the list of rules has one more rule at its end, under the name that is
-- returned, and that rule is usable: it has a host, ports in range and, unless it is dynamic, a
-- remote host.
pub get_rules-add_rule :
    (rule : ForwardRule) {m : Manager} (name : String)
    → IsOrdered m
    → (add_rule rule m).0 ≡ ok name
    → (r : ForwardRule) × (r.name ≡ name)
      × IsUsable r
      × (get_rules (add_rule rule m).1 ≡ get_rules m ++ r ∷ [])
unfolding add_rule
get_rules-add_rule rule {m} name o h =
    let (named, m') = assign_name rule m in
    let (r, accepted, e, f) =
      store_rule_outcome (accept_rule named m') name (assign_name-IsOrdered rule o)
        (λ q g. let (e, free) = accept_rule-name named m' q g in rw (e) free) h in
    (r, e, accept_rule-IsUsable named m' r accepted, rw (← get_rules-assign_name rule m) f)

store_rule_refused :
    (x : Result ForwardRule) (m : Manager) (e : Error)
    → (store_rule x m).0 ≡ err e
    → (store_rule x m).1 ≡ m
unfolding store_rule
store_rule_refused (err f) m e h = refl
store_rule_refused (ok r) m e h = cc

-- When AddRule fails, the list of rules is as before; only the counter of generated names may have
-- moved.
pub add_rule_refused :
    (rule : ForwardRule) (m : Manager) (e : Error)
    → (add_rule rule m).0 ≡ err e
    → get_rules (add_rule rule m).1 ≡ get_rules m
unfolding add_rule
add_rule_refused rule m e h =
    let (named, m') = assign_name rule m in
    rw (store_rule_refused (accept_rule named m') m' e h) (get_rules-assign_name rule m)
