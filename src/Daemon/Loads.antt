-- ===== src/Daemon/Loads.antt =====
-- internal/daemon/daemon.go: New loads the rules of another manager.
use mole_port.Base.{
  All, Distinct, In, List, Map, Option-cases, String, [], ap, append_assoc, append_nil, inl, inr,
  none, put_ne, refl, some, subst, sym, true, ◌++◌, ◌∙◌, ◌∷◌, ◌≡◌, ◌≢◌,
}
use mole_port.Core.Errors.{Error, Result, ok}
use mole_port.Core.Models.{ForwardRule}
use mole_port.Forward.State.{Manager, new}
use mole_port.Forward.Rules.{collect_rules, get_rules, store_rule}
use mole_port.Forward.Invariant.{IsOrdered, IsValid}
use mole_port.Forward.Invariant.Naming.{add_rule-IsOrdered}
use mole_port.Forward.Outcomes.Adding.{collect_rules-last}
use mole_port.Daemon.Process.{load_rules, warned}
use mole_port.Daemon.Loading.{AllFixed, IsFixed, add_rule-IsFixed}
use mole_port.Forward.Requests.{new-IsValid}

-- Rules that a manager takes one after another
abbrev pub Loads : List ForwardRule → Manager → Type 0
Loads [] m = Unit
Loads (r ∷ rs) m =
    IsFixed r × (m.rules r.name ≡ none) × All (λ (q : ForwardRule). r.name ≢ q.name) rs × Loads rs m

pub Loads-store_rule :
    (r : ForwardRule) (m : Manager) (rs : List ForwardRule)
    → All (λ (q : ForwardRule). r.name ≢ q.name) rs
    → Loads rs m
    → Loads rs (store_rule (ok r) m).1
unfolding store_rule
Loads-store_rule r m [] apart l = tt
Loads-store_rule r m (q ∷ rs) (ne, apart) (fixed, free, later_, l) =
    (fixed, put_ne m.rules r.name q.name r ne ∙ free, later_, Loads-store_rule r m rs apart l)

get_rules-stored :
    (r : ForwardRule) (m : Manager)
    → IsOrdered m
    → m.rules r.name ≡ none
    → get_rules (store_rule (ok r) m).1 ≡ get_rules m ++ (r ∷ [])
unfolding get_rules store_rule
get_rules-stored r m o free = collect_rules-last m.rules m.rule_order r (λ i. o.known r.name i free)

load_rules-Loads :
    (rs : List ForwardRule) (warnings : List (String × Error)) (m : Manager)
    → IsOrdered m
    → Loads rs m
    → ((load_rules rs (warnings, m)).0 ≡ warnings)
      × (get_rules (load_rules rs (warnings, m)).1 ≡ get_rules m ++ rs)
unfolding load_rules store_rule
load_rules-Loads [] warnings m o l = (refl, sym (append_nil (get_rules m)))
load_rules-Loads (r ∷ rs) warnings m o (fixed, free, apart, l) =
    let m1 = (store_rule (ok r) m).1 in
    let added = add_rule-IsFixed r m fixed free in
    let (quiet, all) =
      load_rules-Loads rs warnings m1
        (subst (λ (x : Result String × Manager). IsOrdered x.1) added (add_rule-IsOrdered r o))
        (Loads-store_rule r m rs apart l) in
    let step : load_rules (r ∷ rs) (warnings, m) ≡ load_rules rs (warnings, m1) =
      ap (λ (x : Result String × Manager). load_rules rs (warned r.name warnings x)) added in
    (
      ap (λ (x : List (String × Error) × Manager). x.0) step ∙ quiet,
      ap (λ (x : List (String × Error) × Manager). get_rules x.1) step
          ∙ all
          ∙ ap (λ l. l ++ rs) (get_rules-stored r m o free)
          ∙ append_assoc (get_rules m) (r ∷ []) rs,
    )

pub collected_none :
    (rules : Map ForwardRule) (x : String) (xs : List String)
    → rules x ≡ none
    → collect_rules (λ r. true) rules (x ∷ xs) ≡ collect_rules (λ r. true) rules xs
unfolding collect_rules
collected_none rules x xs e = rw (collect_rules, e) refl

pub collected_some :
    (rules : Map ForwardRule) (x : String) (xs : List String) (r : ForwardRule)
    → rules x ≡ some r
    → collect_rules (λ r. true) rules (x ∷ xs) ≡ r ∷ collect_rules (λ r. true) rules xs
unfolding collect_rules
collected_some rules x xs r e = rw (collect_rules, e) refl

-- The rules of a manager, taken in their order
collected_apart :
    (rules : Map ForwardRule) (n : String) (xs : List String)
    → ((a : String) (r : ForwardRule) → rules a ≡ some r → r.name ≡ a)
    → (In n xs → ⊥)
    → All (λ (q : ForwardRule). n ≢ q.name) (collect_rules (λ r. true) rules xs)
unfolding collect_rules
collected_apart rules n [] own out = tt
collected_apart rules n (x ∷ xs) own out = elim (Option-cases (rules x)) [
  | inl gone ↦
      subst (All (λ (q : ForwardRule). n ≢ q.name)) (sym (collected_none rules x xs gone))
        (collected_apart rules n xs own (λ i. out (inr i)))
  | inr (r, here) ↦
      subst (All (λ (q : ForwardRule). n ≢ q.name)) (sym (collected_some rules x xs r here))
        ((λ e. out (inl (e ∙ own x r here))), collected_apart rules n xs own (λ i. out (inr i)))
]

pub collected-Loads :
    (m t : Manager) (xs : List String)
    → IsOrdered m
    → AllFixed m
    → ((a : String) → t.rules a ≡ none)
    → Distinct xs
    → Loads (collect_rules (λ r. true) m.rules xs) t
unfolding collect_rules AllFixed
collected-Loads m t [] o all empty d = tt
collected-Loads m t (x ∷ xs) o all empty (fresh, d) = elim (Option-cases (m.rules x)) [
  | inl gone ↦
      subst (λ rs. Loads rs t) (sym (collected_none m.rules x xs gone))
        (collected-Loads m t xs o all empty d)
  | inr (r, here) ↦
      subst (λ rs. Loads rs t) (sym (collected_some m.rules x xs r here))
        (
          all x r here,
          empty r.name,
          collected_apart m.rules r.name xs o.own_name
              (λ i. fresh (subst (λ n. In n xs) (o.own_name x r here) i)),
          collected-Loads m t xs o all empty d,
        )
]

pub new-IsOrdered : IsOrdered new
new-IsOrdered = let v : IsValid new = new-IsValid in v.ordered

-- The rules of one manager, loaded into a new one, are the same again.
pub load_rules-get_rules :
    (m : Manager)
    → IsOrdered m
    → AllFixed m
    → ((load_rules (get_rules m) ([], new)).0 ≡ [])
      × (get_rules (load_rules (get_rules m) ([], new)).1 ≡ get_rules m)
unfolding get_rules new
load_rules-get_rules m o all =
    let (quiet, same) =
      load_rules-Loads (get_rules m) [] new new-IsOrdered
        (collected-Loads m new m.rule_order o all (λ a. refl) o.once) in
    (quiet, same)
