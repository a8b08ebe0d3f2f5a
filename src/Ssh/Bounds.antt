-- ===== src/Ssh/Bounds.antt =====
-- internal/core/ssh/reconnect.go: the delays between the attempts of a reconnect.
use mole_port.Base.{
  Bool-cases, Option, Option-cases, ap, arith, if◌then◌else◌, inl, inr, ltb, pos, refl, some, suc,
  zero, ℕ, ◌*◌, ◌+◌, ◌/◌, ◌<◌, ◌==◌, ◌∙◌, ◌≡◌, ◌≤◌,
}
use mole_port.Ssh.Backoff.{add_jitter, backoff_with_jitter, delay_before}

-- rand.Int gives a number below its bound.
abbrev pub IsBelow : (ℕ → Option ℕ) → Type 0
IsBelow random = (n k : ℕ) → random n ≡ some k → k < n

add_jitter-bounds :
    (random : ℕ → Option ℕ) (base : ℕ)
    → IsBelow random
    → (d : ℕ) × (add_jitter random (pos base) ≡ pos d) × (base ≤ d) × (d ≤ base + base / 10)
unfolding add_jitter
add_jitter-bounds random base h = elim (Bool-cases (base / 10 == 0)) [
  | inl e ↦ (base, ground arith, omega arith, omega arith)
  | inr e ↦ elim (Option-cases (random (base / 10))) [
    | inl o ↦ (base, ground arith, omega arith, omega arith)
    | inr (k, o) ↦ (base + k, ground arith, omega arith, omega (arith, h (base / 10) k o))
  ]
]

abbrev pub min : ℕ → ℕ → ℕ
min a b = if ltb b a then b else a

backoff_with_jitter-bounds :
    (random : ℕ → Option ℕ) (current max_delay : ℕ)
    → IsBelow random
    → (d : ℕ) × (backoff_with_jitter random (pos current) (pos max_delay) ≡ pos d)
      × (min (2 * current) max_delay ≤ d)
      × (d ≤ max_delay + max_delay / 10)
unfolding backoff_with_jitter
backoff_with_jitter-bounds random current max_delay h =
    elim (Bool-cases (ltb max_delay (2 * current))) [
      | inl e ↦
          let (d, is, low, high) = add_jitter-bounds random max_delay h in
          (d, ground (arith, is), ground arith, ground arith)
      | inr e ↦
          let (d, is, low, high) = add_jitter-bounds random (2 * current) h in
          (d, ground (arith, is), ground arith, ground arith)
    ]

abbrev pub doubled : ℕ → ℕ → ℕ
doubled zero d = d
doubled (suc n) d = 2 * doubled n d

-- The delay before attempt 0 is the initial delay exactly. The delay before attempt n is at least the
-- initial delay doubled n times, up to the maximum, and from the second attempt on exceeds the maximum
-- by a tenth at most, whatever the random numbers.
pub delay_before-bounds :
    (random : ℕ → ℕ → Option ℕ) (initial max_delay n : ℕ)
    → ((i : ℕ) → IsBelow (random i))
    → (delay_before random (pos initial) (pos max_delay) 0 ≡ pos initial)
      × ((d : ℕ) × (delay_before random (pos initial) (pos max_delay) n ≡ pos d)
          × (min (doubled n initial) max_delay ≤ d)
          × (1 ≤ n → d ≤ max_delay + max_delay / 10))
unfolding delay_before
delay_before-bounds random initial max_delay zero h =
    (refl, (initial, refl, ground arith, ground arith))
delay_before-bounds random initial max_delay (suc n) h =
    let (first, (c, is, low, high)) = delay_before-bounds random initial max_delay n h in
    let (d, is', low', high') = backoff_with_jitter-bounds (random n) c max_delay (h n) in
    (
      refl,
      (
        d,
        ap (λ x. backoff_with_jitter (random n) x (pos max_delay)) is ∙ is',
        ground arith,
        λ e. high',
      ),
    )

-- Once twice a delay reaches the maximum, a random number above 0 makes the next delay exceed the maximum
-- by that number.
delay_before-exceeds :
    (random : ℕ → ℕ → Option ℕ) (initial max_delay n c k : ℕ)
    → delay_before random (pos initial) (pos max_delay) n ≡ pos c
    → max_delay ≤ 2 * c
    → 10 ≤ max_delay
    → random n (max_delay / 10) ≡ some k
    → 0 < k
    → (d : ℕ) × (delay_before random (pos initial) (pos max_delay) (suc n) ≡ pos d)
      × (max_delay < d)
      × (d ≡ max_delay + k)
unfolding delay_before backoff_with_jitter add_jitter
delay_before-exceeds random initial max_delay n c k before reached large drawn above = (
  max_delay + k,
  rw (before) (elim (Bool-cases (ltb max_delay (2 * c))) [
    | inl e ↦ ground (arith, drawn, e)
    | inr e ↦ let same : 2 * c ≡ max_delay = ground arith in ground (arith, drawn, e, same)
  ]),
  omega arith,
  refl,
)
