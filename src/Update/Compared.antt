-- ===== src/Update/Compared.antt =====
-- internal/core/update/checker.go: isNewerVersion.
use mole_port.Base.{String, arith, false, ltb_ℤ, pos, true, ◌≡◌}
use mole_port.Update.Checker.{Semver, ensure_v_prefix, is_newer_version}

-- Where `semver.Compare` never finds each of two versions above the other, a version that is newer than another
-- is offered to the other, and the other is not offered to it: an update is never followed by the
-- one that undoes it.
pub is_newer_version_asymmetric :
    (semver : Semver) (a b : String)
    → ((v w : String)
        → ltb_ℤ (pos 0) (semver.compare v w) ≡ true
        → ltb_ℤ (pos 0) (semver.compare w v) ≡ false)
    → is_newer_version semver a b ≡ true
    → is_newer_version semver b a ≡ false
unfolding is_newer_version
is_newer_version_asymmetric semver a b order newer =
    ground (arith, order (ensure_v_prefix b) (ensure_v_prefix a))
