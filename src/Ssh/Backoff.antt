-- ===== src/Ssh/Backoff.antt =====
-- internal/core/ssh/reconnect.go: the settings of a reconnect and the delays between its attempts. The
-- code computes on floats; for durations below 2^52 ns, some fifty days, that is what stands here.
use mole_port.Base.{
  Option, if◌then◌else◌, ltb_ℤ, negsuc, none, pos, some, suc, zero, ℕ, ℤ, ◌*◌, ◌+◌, ◌/◌, ◌==◌,
}
use mole_port.Core.Settings.{ReconnectConfig, ReconnectOverride}

unfoldable pub override_value {ℓ} : {A : Type ℓ} → Option A → A → A
override_value none v = v
override_value (some w) v = w

-- resolveReconnectConfig
unfoldable pub resolve_reconnect_config :
    ReconnectConfig → Option ReconnectOverride → ReconnectConfig
unfolding override_value
resolve_reconnect_config global none = global
resolve_reconnect_config global (some o) = record global {
  enabled = override_value o.enabled global.enabled;
  max_retries = override_value o.max_retries global.max_retries;
  initial_delay = override_value o.initial_delay global.initial_delay;
  max_delay = override_value o.max_delay global.max_delay;
}

abbrev pub min_ℤ : ℤ → ℤ → ℤ
min_ℤ a b = if ltb_ℤ b a then b else a

abbrev pub twice_ℤ : ℤ → ℤ
twice_ℤ (pos n) = pos (2 * n)
twice_ℤ (negsuc n) = negsuc (suc (2 * n))

-- `random n` is what rand.Int returns for the bound n, `none` where it fails.
unfoldable pub add_jitter : (ℕ → Option ℕ) → ℤ → ℤ
add_jitter random (negsuc n) = negsuc n
add_jitter random (pos base) =
    if base / 10 == 0
    then pos base
    else elim (random (base / 10)) [ none ↦ pos base | some k ↦ pos (base + k) ]

-- backoffWithJitter
unfoldable pub backoff_with_jitter : (ℕ → Option ℕ) → ℤ → ℤ → ℤ
unfolding add_jitter
backoff_with_jitter random current max_delay = add_jitter random (min_ℤ (twice_ℤ current) max_delay)

-- The delay before attempt n, when the attempts before it have failed.
unfoldable pub delay_before : (ℕ → ℕ → Option ℕ) → ℤ → ℤ → ℕ → ℤ
unfolding backoff_with_jitter
delay_before random initial max_delay zero = initial
delay_before random initial max_delay (suc n) =
    backoff_with_jitter (random n) (delay_before random initial max_delay n) max_delay
