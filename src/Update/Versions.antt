-- ===== src/Update/Versions.antt =====
-- internal/core/update/checker.go: the checks in the background and the answers for a version.
use mole_port.Base.{
  ==_iff, All, Bool, Bool-cases, List, Option, String, [], arith, false, if◌then◌else◌, inl, inr,
  ltb_ℤ, none, not, pos, refl, select, some, some-none, subst, suc, sym, true, true-false, zero, ℕ,
  ℤ, ◌<>◌, ◌==◌, ◌↔◌, ◌∙◌, ◌∷◌, ◌≡◌,
}
use mole_port.Core.Errors.{Error, Result, err, ok}
use mole_port.Update.Http.{GithubRelease, Http}
use mole_port.Update.Checker.{
  Semver, VersionCheckResult, VersionChecker, cached_or_checked, cancel_loop, check_release,
  checked_version, ensure_v_prefix, fetch_latest, is_live, is_newer_version, is_off, keep_release,
  launch, launched, loop_turn, new_version_checker, reserve_start, set_api_base, start_loop, stop,
}
use text.Mathlib.Text.{starts_with}
use mole_port.Update.Checker.{latest_version}

-- What happens to a checker: the locked section of a Start and its `go` statement, the other methods, turns of
-- its loops, and the end of the parent context.
pub data CheckerEvent : Type 0 where
  starts launches stops : CheckerEvent
  parent_ends : CheckerEvent
  turns asks : Http → ℕ → CheckerEvent
  sets_base : String → CheckerEvent

-- The loops whose context ends with its parent
unfoldable pub step_checker : Semver → CheckerEvent → VersionChecker → VersionChecker
unfolding reserve_start launch stop loop_turn latest_version set_api_base
step_checker semver starts vc = reserve_start vc
step_checker semver launches vc = launch vc.launching vc
step_checker semver stops vc = stop vc
step_checker semver parent_ends vc = record vc { loops = [] }
step_checker semver (turns http now) vc = loop_turn semver http now vc.loops vc
step_checker semver (asks http now) vc = (latest_version semver http now vc).1
step_checker semver (sets_base base) vc = set_api_base base vc

abbrev pub run_checker : Semver → List CheckerEvent → VersionChecker → VersionChecker
run_checker semver [] vc = vc
run_checker semver (e ∷ es) vc = run_checker semver es (step_checker semver e vc)

-- Each loop runs on the context that Stop ends.
abbrev pub OwnsLoops : Option ℕ → List ℕ → Type 0
OwnsLoops none loops = loops ≡ []
OwnsLoops (some c) loops = All (λ d. d ≡ c) loops

abbrev pub with_v : String → String
with_v v = if starts_with v "v" then v else "v" <> v

-- Both versions are valid, and the second is above the first.
abbrev pub IsNewer : Semver → String → String → Type 0
IsNewer semver v w =
    (semver.is_valid (with_v v) ≡ true)
    × (semver.is_valid (with_v w) ≡ true)
    × (ltb_ℤ (pos 0) (semver.compare (with_v w) (with_v v)) ≡ true)

-- A cached release is marked as an update just when its version is newer.
abbrev pub IsJudged : Semver → String → Option VersionCheckResult → Type 0
IsJudged semver version none = Unit
IsJudged semver version (some r) =
    (r.update_available ≡ true) ↔ IsNewer semver version r.latest_version

-- A checker that is off runs nothing and knows nothing.
abbrev pub IsIdle : VersionChecker → Type 0
IsIdle vc = (vc.cancel ≡ none) × (vc.loops ≡ []) × (vc.cache ≡ none)

unfoldable pub IsSound : Semver → VersionChecker → Type 0
IsSound semver vc =
    OwnsLoops vc.cancel vc.loops
    × IsJudged semver vc.current_version vc.cache
    × (is_off vc ≡ true → IsIdle vc)

-- The loops that remain once those of the context are gone
select-own :
    (c : ℕ) (loops : List ℕ) → OwnsLoops (some c) loops → select (λ d. not (d == c)) loops ≡ []
select-own c [] h = refl
select-own c (d ∷ loops) (e, h) = ground (arith, select-own c loops h, e, ==_iff d c)

nil_cons : (c : ℕ) (cs : List ℕ) → c ∷ cs ≡ [] → ⊥
nil_cons c cs h = ground arith

none_off : (o : Option ℕ) (loops : List ℕ) → o ≡ none → OwnsLoops o loops → loops ≡ []
none_off none loops e h = h
none_off (some c) loops e h = elim (some-none c e) [ ]

is_newer_version-IsNewer :
    (semver : Semver) (v w : String) → (is_newer_version semver v w ≡ true) ↔ IsNewer semver v w
unfolding is_newer_version ensure_v_prefix
is_newer_version-IsNewer semver v w = (λ e. ground (arith, e), λ n. ground (arith, n))

module _ (semver : Semver) where
  start_loop-IsSound :
      (o : Option ℕ) (vc : VersionChecker)
      → vc.cancel ≡ o
      → is_off vc ≡ false
      → IsSound semver vc
      → IsSound semver (start_loop o vc)
  unfolding start_loop IsSound
  start_loop-IsSound (some c) vc e off s = s
  start_loop-IsSound none vc e off (owns, judged, idle) =
      let quiet = subst (λ o. OwnsLoops o vc.loops) e owns in
      (
        subst (All (λ d. d ≡ vc.next_context)) (sym quiet) tt,
        judged,
        λ on. elim (true-false (is_off vc) on off) [ ],
      )

  reserve_start-IsSound :
      (vc : VersionChecker) → IsSound semver vc → IsSound semver (reserve_start vc)
  unfolding reserve_start
  reserve_start-IsSound vc s = elim (Bool-cases (is_off vc)) [
    | inl off ↦ rw (off) s
    | inr on ↦ rw (on) (start_loop-IsSound vc.cancel vc refl on s)
  ]

  live_owns :
      (c : ℕ) (o : Option ℕ) (loops : List ℕ)
      → is_live c o ≡ true
      → OwnsLoops o loops
      → OwnsLoops o (c ∷ loops)
  live_owns c none loops e h = elim (true-false false e refl) [ ]
  live_owns c (some d) loops e h = ((==_iff c d).0 e, h)

  live_some : (c : ℕ) (o : Option ℕ) → is_live c o ≡ true → o ≡ none → ⊥
  live_some c none e h = true-false false e refl
  live_some c (some d) e h = some-none d h

  launched-IsSound :
      (o : Option ℕ) (vc : VersionChecker) → IsSound semver vc → IsSound semver (launched o vc)
  unfolding launched IsSound
  launched-IsSound none vc s = s
  launched-IsSound (some c) vc (owns, judged, idle) = elim (Bool-cases (is_live c vc.cancel)) [
    | inl live ↦ rw (live) (
      live_owns c vc.cancel vc.loops live owns,
      judged,
      λ off. elim (live_some c vc.cancel live (idle off).0) [ ],
    )
    | inr ended ↦ rw (ended) (owns, judged, idle)
  ]

  launch-IsSound : (n : ℕ) (vc : VersionChecker) → IsSound semver vc → IsSound semver (launch n vc)
  unfolding launch IsSound
  launch-IsSound zero vc s = s
  launch-IsSound (suc n) vc s = launched-IsSound vc.context (record vc { launching = n }) s

  cancel_loop-IsSound :
      (o : Option ℕ) (vc : VersionChecker)
      → vc.cancel ≡ o
      → IsSound semver vc
      → IsSound semver (cancel_loop o vc)
  unfolding cancel_loop IsSound
  cancel_loop-IsSound none vc e s = s
  cancel_loop-IsSound (some c) vc e (owns, judged, idle) =
      let gone = select-own c vc.loops (subst (λ o. OwnsLoops o vc.loops) e owns) in
      (gone, judged, λ off. let (free, quiet, unknown) = idle off in (refl, gone, unknown))

  parent_ends-IsSound :
      (o : Option ℕ) (vc : VersionChecker)
      → vc.cancel ≡ o
      → IsSound semver vc
      → IsSound semver (record vc { loops = [] })
  unfolding IsSound
  parent_ends-IsSound none vc e (owns, judged, idle) =
      (rw (e) refl, judged, λ off. let (free, quiet, unknown) = idle off in (free, refl, unknown))
  parent_ends-IsSound (some c) vc e (owns, judged, idle) =
      (rw (e) tt, judged, λ off. let (free, quiet, unknown) = idle off in (free, refl, unknown))

  keep_release-IsSound :
      (now : ℕ) (vc : VersionChecker) (answer : Result GithubRelease)
      → is_off vc ≡ false
      → IsSound semver vc
      → IsSound semver (keep_release semver now vc answer).1
  unfolding keep_release IsSound
  keep_release-IsSound now vc (err e) on s = s
  keep_release-IsSound now vc (ok release) on (owns, judged, idle) = (
    owns,
    is_newer_version-IsNewer semver vc.current_version release.tag_name,
    λ off. elim (true-false (is_off vc) off on) [ ],
  )

  -- Where a loop runs, the checker is on.
  loop-on :
      (vc : VersionChecker) (c : ℕ) (loops : List ℕ)
      → vc.loops ≡ c ∷ loops
      → IsSound semver vc
      → is_off vc ≡ false
  unfolding IsSound
  loop-on vc c loops e (owns, judged, idle) = elim (Bool-cases (is_off vc)) [
    | inl off ↦ let (free, quiet, unknown) = idle off in elim (nil_cons c loops (sym e ∙ quiet)) [ ]
    | inr on ↦ on
  ]

  loop_turn-IsSound :
      (http : Http) (now : ℕ) (loops : List ℕ) (vc : VersionChecker)
      → vc.loops ≡ loops
      → IsSound semver vc
      → IsSound semver (loop_turn semver http now loops vc)
  unfolding loop_turn check_release
  loop_turn-IsSound http now [] vc e s = s
  loop_turn-IsSound http now (c ∷ loops) vc e s =
      keep_release-IsSound now vc (fetch_latest http vc) (loop-on vc c loops e s) s

  checked_version-state : (x : Option Error × VersionChecker) → (checked_version x).1 ≡ x.1
  unfolding checked_version
  checked_version-state (some e, vc) = refl
  checked_version-state (none, vc) = refl

  cached_or_checked-IsSound :
      (http : Http) (now : ℕ) (o : Option VersionCheckResult) (vc : VersionChecker)
      → is_off vc ≡ false
      → IsSound semver vc
      → IsSound semver (cached_or_checked semver http now vc o).1
  unfolding cached_or_checked check_release
  cached_or_checked-IsSound http now (some r) vc on s = s
  cached_or_checked-IsSound http now none vc on s =
      subst (λ v. IsSound semver v) (sym (checked_version-state (check_release semver http now vc)))
        (keep_release-IsSound now vc (fetch_latest http vc) on s)

  latest_version-IsSound :
      (http : Http) (now : ℕ) (vc : VersionChecker)
      → IsSound semver vc
      → IsSound semver (latest_version semver http now vc).1
  unfolding latest_version
  latest_version-IsSound http now vc s = elim (Bool-cases (is_off vc)) [
    | inl off ↦ rw (off) s
    | inr on ↦ rw (on) (cached_or_checked-IsSound http now vc.cache vc on s)
  ]

  step_checker-IsSound :
      (e : CheckerEvent) (vc : VersionChecker)
      → IsSound semver vc
      → IsSound semver (step_checker semver e vc)
  unfolding step_checker stop set_api_base IsSound
  step_checker-IsSound starts vc s = reserve_start-IsSound vc s
  step_checker-IsSound launches vc s = launch-IsSound vc.launching vc s
  step_checker-IsSound stops vc s = cancel_loop-IsSound vc.cancel vc refl s
  step_checker-IsSound parent_ends vc s = parent_ends-IsSound vc.cancel vc refl s
  step_checker-IsSound (turns http now) vc s = loop_turn-IsSound http now vc.loops vc refl s
  step_checker-IsSound (asks http now) vc s = latest_version-IsSound http now vc s
  step_checker-IsSound (sets_base base) vc s = s

run_checker_keeps :
    (semver : Semver) (events : List CheckerEvent) (vc : VersionChecker)
    → IsSound semver vc
    → IsSound semver (run_checker semver events vc)
run_checker_keeps semver [] vc s = s
run_checker_keeps semver (e ∷ events) vc s =
    run_checker_keeps semver events (step_checker semver e vc) (step_checker-IsSound semver e vc s)

-- From New on, whatever is called, whatever GitHub answers, and whatever happens between the locked section of a
-- Start and its `go` statement: each loop that runs is one that the next Stop ends; a cached release is
-- marked as an update just when both versions are valid and its version is above the program's; and a
-- checker that is disabled, or of a dev build, runs no loop and caches nothing.
pub run_checker-IsSound :
    (semver : Semver) (events : List CheckerEvent) (version : String) (enabled : Bool)
    (interval : ℤ)
    → IsSound semver (run_checker semver events (new_version_checker version enabled interval))
unfolding IsSound new_version_checker
run_checker-IsSound semver events version enabled interval =
    run_checker_keeps semver events (new_version_checker version enabled interval)
      (refl, tt, λ off. (refl, refl, refl))
