-- ===== src/Daemon/Loading.antt =====
-- internal/daemon/daemon.go: the rules that New loads.
use mole_port.Base.{
  Bool-cases, Map, String, ap, arith, delete-some, eq_iff, false, inl, inr, negsuc, none, pos,
  put-some, refl, some, str_eq, subst, sym, true-false, ℤ, ◌<>◌, ◌∙◌, ◌≡◌, ◌≢◌,
}
use mole_port.Core.Enums.{ForwardType, dynamic, local, remote}
use mole_port.Core.Errors.{Result, err, ok}
use mole_port.Core.Models.{ForwardRule, validate_port}
use mole_port.Forward.State.{Manager}
use mole_port.Forward.Rules.{
  accept_rule, add_rule, assign_name, check_remote, default_host, store_rule,
}
use mole_port.Forward.Outcomes.Adding.{IsPort, IsUsable, accept_rule-IsUsable}
use mole_port.Forward.Lifecycle.{delete_rule}
use mole_port.Forward.Invariant.Naming.{accept_rule-name, rules-delete_rule}
use text.Mathlib.Text.{starts_with}
use text.Mathlib.TextPositions.{starts_with-append}

-- What AddRule takes as it is: a usable rule with a name
unfoldable pub IsFixed : ForwardRule → Type 0
IsFixed r = IsUsable r × (r.name ≢ "")

IsPort-validate_port : (p : ℤ) → IsPort p → validate_port p ≡ none
unfolding validate_port
IsPort-validate_port (pos n) h = ground arith
IsPort-validate_port (negsuc n) h = ground arith

differ : (s t : String) → s ≢ t → str_eq s t ≡ false
differ s t h = elim (Bool-cases (str_eq s t)) [
  | inl same ↦ elim (h ((eq_iff s t).0 same)) [ ]
  | inr apart ↦ apart
]

apart_of : (s t : String) → str_eq s t ≡ false → s ≢ t
apart_of s t h e = ground (arith, eq_iff s t)

local_dynamic : local ≢ dynamic
local_dynamic e = ground arith

remote_dynamic : remote ≢ dynamic
remote_dynamic e = ground arith

check_remote-IsFixed :
    (t : ForwardType) (r : ForwardRule) → r.type ≡ t → IsUsable r → check_remote t r ≡ ok r
unfolding check_remote default_host
check_remote-IsFixed dynamic r e u = refl
check_remote-IsFixed local r e u =
    let (port, host) = u.remote_end (λ f. local_dynamic (sym e ∙ f)) in
    rw (IsPort-validate_port r.remote_port port, default_host, differ r.remote_host "" host) refl
check_remote-IsFixed remote r e u =
    let (port, host) = u.remote_end (λ f. remote_dynamic (sym e ∙ f)) in
    rw (IsPort-validate_port r.remote_port port, default_host, differ r.remote_host "" host) refl

accept_rule-IsFixed :
    (r : ForwardRule) (m : Manager) → IsFixed r → m.rules r.name ≡ none → accept_rule r m ≡ ok r
unfolding accept_rule IsFixed
accept_rule-IsFixed r m (u, named) free =
    rw (accept_rule, free, differ r.host "" u.host, IsPort-validate_port r.local_port u.local_port)
      (check_remote-IsFixed r.type r refl u)

generated_named : (s : String) → "forward-" <> s ≢ ""
generated_named s e =
    true-false (starts_with ("forward-" <> s) "forward-") (starts_with-append "forward-" s)
      (ap (λ t. starts_with t "forward-") e)

assign_name-named : (r : ForwardRule) (m : Manager) → (assign_name r m).0.name ≢ ""
unfolding assign_name
assign_name-named r m = elim (Bool-cases (str_eq r.name "")) [
  | inl empty ↦ rw (empty) (generated_named _)
  | inr full ↦ rw (full) (apart_of r.name "" full)
]

-- The rules under their names are what AddRule takes as it is.
unfoldable pub AllFixed : Manager → Type 0
AllFixed m = (a : String) (r : ForwardRule) → m.rules a ≡ some r → IsFixed r

store_rule-AllFixed :
    (x : Result ForwardRule) (m : Manager)
    → ((r : ForwardRule) → x ≡ ok r → IsFixed r)
    → AllFixed m
    → AllFixed (store_rule x m).1
unfolding store_rule AllFixed
store_rule-AllFixed (err e) m fixed all a q e' = all a q e'
store_rule-AllFixed (ok r) m fixed all a q e = elim (put-some m.rules r.name a r q e) [
  | inl (same, is) ↦ subst IsFixed is (fixed r refl)
  | inr (apart, old) ↦ all a q old
]

assign_name-rules : (r : ForwardRule) (m : Manager) → (assign_name r m).1.rules ≡ m.rules
unfolding assign_name
assign_name-rules r m = ground arith

pub add_rule-AllFixed : (r : ForwardRule) (m : Manager) → AllFixed m → AllFixed (add_rule r m).1
unfolding add_rule AllFixed IsFixed
add_rule-AllFixed r m all =
    let named = (assign_name r m).0 in
    let m' = (assign_name r m).1 in
    store_rule-AllFixed (accept_rule named m') m'
      (λ q e. (
        accept_rule-IsUsable named m' q e,
        λ empty. assign_name-named r m (sym (accept_rule-name named m' q e).0 ∙ empty),
      ))
      (λ a q e. all a q (ap (λ (f : Map ForwardRule). f a) (sym (assign_name-rules r m)) ∙ e))

pub delete_rule-AllFixed :
    (name : String) (m : Manager) → AllFixed m → AllFixed (delete_rule name m).1
unfolding AllFixed
delete_rule-AllFixed name m all a r e =
    all a r (delete-some m.rules name a r (sym (rules-delete_rule name m a) ∙ e))

-- A rule that is taken as it is
pub add_rule-IsFixed :
    (r : ForwardRule) (m : Manager)
    → IsFixed r
    → m.rules r.name ≡ none
    → add_rule r m ≡ store_rule (ok r) m
unfolding add_rule assign_name IsFixed
add_rule-IsFixed r m (u, named) free =
    rw (add_rule, assign_name, differ r.name "" named, accept_rule-IsFixed r m (u, named) free) refl
