-- ===== src/Forward/Rules.antt =====
-- internal/core/forward/manager.go: the rules, kept in the order in which they were added.
use mole_port.Base.{
  Bool, List, Option, String, [], if◌then◌else◌, itoa, none, put, some, str_eq, true, ◌++◌, ◌+◌,
  ◌<>◌, ◌∷◌,
}
use mole_port.Core.Enums.{ForwardType, dynamic}
use mole_port.Core.Models.{ForwardRule, validate_port}
use mole_port.Core.Errors.{Result, already_exists, err, ok, other, wrap, ◌>>◌}
use mole_port.Forward.State.{Manager}

-- `if rule.Name == ""`: a generated name, and the counter behind it
unfoldable pub assign_name : ForwardRule → Manager → ForwardRule × Manager
unfolding itoa
assign_name rule m =
    if str_eq rule.name ""
    then (
      record rule { name = "forward-" <> itoa (m.next_id + 1) },
      record m { next_id = m.next_id + 1 },
    )
    else (rule, m)

abbrev pub as_other : String → Option String → Result (Unit {0})
as_other s none = ok tt
as_other s (some text) = err (wrap s (other text))

unfoldable pub default_host : ForwardRule → ForwardRule
default_host rule =
    if str_eq rule.remote_host "" then record rule { remote_host = "localhost" } else rule

-- The second half of the checks, for the types that have a remote end.
unfoldable pub check_remote : ForwardType → ForwardRule → Result ForwardRule
unfolding default_host validate_port
check_remote dynamic rule = ok rule
check_remote _ rule = do
  as_other "remote_port" (validate_port rule.remote_port)
  ok (default_host rule)

-- The checks of AddRule behind the assignment of a name, in their order, and the rule to store.
unfoldable pub accept_rule : ForwardRule → Manager → Result ForwardRule
unfolding check_remote validate_port
accept_rule rule m = elim (m.rules rule.name) [
  | some old ↦ err (already_exists "rule" rule.name)
  | none ↦
      if str_eq rule.host ""
      then err (other "host is required")
      else do as_other "local_port" (validate_port rule.local_port); check_remote rule.type rule
]

unfoldable pub store_rule : Result ForwardRule → Manager → Result String × Manager
store_rule (err e) m = (err e, m)
store_rule (ok rule) m = (
  ok rule.name,
  record m { rules = put m.rules rule.name rule; rule_order = m.rule_order ++ rule.name ∷ [] },
)

-- AddRule
unfoldable pub add_rule : ForwardRule → Manager → Result String × Manager
unfolding assign_name accept_rule store_rule
add_rule rule m = let (named, m') = assign_name rule m in store_rule (accept_rule named m') m'

-- The loop of DeleteRule over `ruleOrder`, which stops at the first hit.
unfoldable pub remove_first : String → List String → List String
remove_first name [] = []
remove_first name (n ∷ ns) =
    let rest = remove_first name ns in if str_eq n name then ns else n ∷ rest

-- The loop of GetRules, with the test of GetRulesByHost.
unfoldable pub collect_rules :
    (ForwardRule → Bool) → (String → Option ForwardRule) → List String → List ForwardRule
collect_rules keep rules [] = []
collect_rules keep rules (name ∷ names) =
    let rest = collect_rules keep rules names in
    elim (rules name) [ none ↦ rest | some rule ↦ if keep rule then rule ∷ rest else rest ]

unfoldable pub get_rules : Manager → List ForwardRule
unfolding collect_rules
get_rules m = collect_rules (λ r. true) m.rules m.rule_order

unfoldable pub get_rules_by_host : String → Manager → List ForwardRule
unfolding collect_rules
get_rules_by_host host m = collect_rules (λ r. str_eq r.host host) m.rules m.rule_order
