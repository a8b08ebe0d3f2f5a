-- ===== src/Forward/Invariant/Naming.antt =====
-- internal/core/forward/manager.go: the rules and their order.
use mole_port.Base.{
  Bool-cases, Distinct, In, List, Option-cases, String, [], ap, arith, eq_iff, if◌then◌else◌, inl,
  inr, none, refl, str_eq, sym, ◌++◌, ◌∙◌, ◌∷◌, ◌≡◌, ◌≢◌, ◌⊎◌,
}
use mole_port.Core.Models.{ForwardRule}
use mole_port.Core.Errors.{Result, err, ok}
use mole_port.Forward.State.{Manager}
use mole_port.Forward.Invariant.{IsOrdered}
use mole_port.Forward.Lifecycle.{delete_rule}
use mole_port.Forward.Rules.{accept_rule, add_rule, assign_name, remove_first, store_rule}

In-append : (a : String) (xs ys : List String) → In a (xs ++ ys) → In a xs ⊎ In a ys
In-append a [] ys h = inr h
In-append a (x ∷ xs) ys (inl e) = inl (inl e)
In-append a (x ∷ xs) ys (inr h) = elim (In-append a xs ys h) [ inl i ↦ inl (inr i) | inr j ↦ inr j ]

In-append_left : (a : String) (xs ys : List String) → In a xs → In a (xs ++ ys)
In-append_left a [] ys h = elim h [ ]
In-append_left a (x ∷ xs) ys (inl e) = inl e
In-append_left a (x ∷ xs) ys (inr h) = inr (In-append_left a xs ys h)

In-append_last : (a : String) (xs : List String) → In a (xs ++ a ∷ [])
In-append_last a [] = inl refl
In-append_last a (x ∷ xs) = inr (In-append_last a xs)

Distinct-append_last :
    (a : String) (xs : List String) → ¬ In a xs → Distinct xs → Distinct (xs ++ a ∷ [])
Distinct-append_last a [] h d = ((λ i. i), tt)
Distinct-append_last a (x ∷ xs) h d = (
  (λ i. elim (In-append x xs (a ∷ []) i) [
    | inl j ↦ d.0 j
    | inr (inl e) ↦ h (inl (sym e))
    | inr (inr e) ↦ e
  ]),
  Distinct-append_last a xs (λ i. h (inr i)) d.1,
)

-- Of a list without repetitions `remove_first` removes its one occurrence, and no other name.
pub In-remove_first :
    (a name : String) (xs : List String)
    → Distinct xs
    → In a (remove_first name xs)
    → In a xs × (name ≢ a)
unfolding remove_first
In-remove_first a name [] d h = absurd h
In-remove_first a name (x ∷ xs) d h = elim (Bool-cases (str_eq x name)) [
  | inl same ↦
      let e : x ≡ name = (eq_iff x name).0 same in
      let h' : In a xs = rw (same) at h in (inr h', λ p. d.0 (rw (e, p) h'))
  | inr differ ↦
      keep (rw (differ) at h) (λ e. cc (differ, (eq_iff x name).1 e))
        (In-remove_first a name xs d.1)
]
  where
    keep :
        In a (x ∷ remove_first name xs)
        → x ≢ name
        → (In a (remove_first name xs) → In a xs × (name ≢ a))
        → In a (x ∷ xs) × (name ≢ a)
    keep (inl e) ne ih = (inl e, λ p. ne (sym (p ∙ e)))
    keep (inr i) ne ih = (inr (ih i).0, (ih i).1)

pub remove_first-In :
    (a name : String) (xs : List String) → In a xs → name ≢ a → In a (remove_first name xs)
unfolding remove_first
remove_first-In a name [] h ne = elim h [ ]
remove_first-In a name (x ∷ xs) (inl e) ne = rw (← e) (ground (arith, eq_iff a name))
remove_first-In a name (x ∷ xs) (inr i) ne = elim (Bool-cases (str_eq x name)) [
  | inl same ↦ rw (same) i
  | inr differ ↦ rw (differ) (inr (remove_first-In a name xs i ne))
]

Distinct-remove_first :
    (name : String) (xs : List String) → Distinct xs → Distinct (remove_first name xs)
unfolding remove_first
Distinct-remove_first name [] d = d
Distinct-remove_first name (x ∷ xs) d = elim (Bool-cases (str_eq x name)) [
  | inl same ↦ rw (same) d.1
  | inr differ ↦
      rw (differ)
        ((λ i. d.0 (In-remove_first x name xs d.1 i).0), Distinct-remove_first name xs d.1)
]

-- A rule that is accepted keeps the name under which it was offered, which no rule has.
pub accept_rule-name :
    (rule : ForwardRule) (m : Manager) (r : ForwardRule)
    → accept_rule rule m ≡ ok r
    → (r.name ≡ rule.name) × (m.rules rule.name ≡ none)
unfolding accept_rule
accept_rule-name rule m r h = ground arith

pub assign_name-IsOrdered :
    (rule : ForwardRule) {m : Manager} → IsOrdered m → IsOrdered (assign_name rule m).1
unfolding assign_name
assign_name-IsOrdered rule o = record {
  own_name = λ a r. ground (arith, o.own_name a r);
  listed = λ a. ground (arith, o.listed a);
  known = λ a. ground (arith, o.known a);
  once = ground (arith, o.once);
}

store_rule-IsOrdered :
    (x : Result ForwardRule) {m : Manager}
    → ((r : ForwardRule) → x ≡ ok r → m.rules r.name ≡ none)
    → IsOrdered m
    → IsOrdered (store_rule x m).1
unfolding store_rule
store_rule-IsOrdered (err e) free o = o
store_rule-IsOrdered (ok r) {m} free o = record {
  own_name = λ a q. ground (arith, o.own_name a q, eq_iff r.name a);
  listed = λ a h. elim (Bool-cases (str_eq r.name a)) [
    | inl same ↦ rw (← (eq_iff r.name a).0 same) (In-append_last r.name m.rule_order)
    | inr differ ↦ In-append_left a m.rule_order (r.name ∷ []) (o.listed a (rw (differ) at h))
  ];
  known = λ a i. elim (In-append a m.rule_order (r.name ∷ []) i) [
    | inl old ↦ ground (arith, o.known a old)
    | inr (inl e) ↦ ground (arith, eq_iff r.name a)
    | inr (inr e) ↦ absurd e
  ];
  once = Distinct-append_last r.name m.rule_order (λ i. o.known r.name i (free r refl)) o.once;
}

-- Adding a rule, accepted or not, keeps the order in step with the map.
pub add_rule-IsOrdered :
    (rule : ForwardRule) {m : Manager} → IsOrdered m → IsOrdered (add_rule rule m).1
unfolding add_rule
add_rule-IsOrdered rule {m} o =
    let (named, m') = assign_name rule m in
    store_rule-IsOrdered (accept_rule named m')
      (λ r h. let (e, free) = accept_rule-name named m' r h in rw (e) free)
      (assign_name-IsOrdered rule o)

remove_first_absent : (name : String) (xs : List String) → ¬ In name xs → remove_first name xs ≡ xs
unfolding remove_first
remove_first_absent name [] h = refl
remove_first_absent name (x ∷ xs) h = elim (Bool-cases (str_eq x name)) [
  | inl same ↦ absurd (h (inl (sym ((eq_iff x name).0 same))))
  | inr differ ↦ rw (differ) (ap (λ l. x ∷ l) (remove_first_absent name xs (λ i. h (inr i))))
]

-- What a deletion does to the rules, whether or not the rule is there.
pub rules-delete_rule :
    (name : String) (m : Manager) (a : String)
    → (delete_rule name m).1.rules a ≡ (if str_eq name a then none else m.rules a)
unfolding delete_rule
rules-delete_rule name m a = ground (arith, eq_iff name a)

pub rule_order-delete_rule :
    (name : String) {m : Manager}
    → IsOrdered m
    → (delete_rule name m).1.rule_order ≡ remove_first name m.rule_order
unfolding delete_rule
rule_order-delete_rule name {m} o = elim (Option-cases (m.rules name)) [
  | inl absent ↦
      ground (arith, absent, remove_first_absent name m.rule_order (λ i. o.known name i absent))
  | inr (r, there) ↦ ground (arith, there)
]

-- Deleting a rule, found or not, keeps the order in step with the map.
pub delete_rule-IsOrdered :
    (name : String) {m : Manager} → IsOrdered m → IsOrdered (delete_rule name m).1
delete_rule-IsOrdered name {m} o = record {
  own_name = λ a r h. ground (arith, o.own_name a r, rules-delete_rule name m a);
  listed = λ a h. rw (rule_order-delete_rule name o) (
      remove_first-In a name m.rule_order (o.listed a (ground (arith, rules-delete_rule name m a)))
        (λ e. ground (arith, rules-delete_rule name m a, eq_iff name a)));
  known = λ a i.
      let (old, apart) =
        In-remove_first a name m.rule_order o.once (rw (rule_order-delete_rule name o) at i) in
      ground (arith, rules-delete_rule name m a, eq_iff name a, o.known a old);
  once = rw (rule_order-delete_rule name o) (Distinct-remove_first name m.rule_order o.once);
}
