-- ===== src/Retry/Delay.antt =====
-- The delays of pkg/middleware/retry/retry.go on int64 durations.
use event_driven.Prelude.{
  ℕ, ◌≡◌, ◌≤◌, ◌<◌, ◌*◌, ◌^◌, ◌/◌, ◌%◌, ltb, leb, arith, if◌then◌else◌, Bool-cases, inl, inr, ◌||◌,
  ◌↔◌,
}
use native.Mathlib.Nat.{div-lt_iff_lt-mul, one-le-pow, mul-one, mul-le-mul_left}
use event_driven.Retry.{delay_for, jittered}

below_power : (n : ℕ) → 0 < 2 ^ n
below_power n = one-le-pow n 2 (omega arith)

-- The shift that the code avoids is the multiplication that it means.
shift_iff : (base max n : ℕ) → (max / 2 ^ n < base) ↔ (max < base * 2 ^ n)
shift_iff base max n = div-lt_iff_lt-mul (below_power n)

fits : (n : ℕ) → n < 2 ^ 63 → n % 2 ^ 64 ≡ n
fits n h = omega arith

-- Every delay is base·2^attempt, capped at the maximum and saturated from attempt 62 on, and no int64 overflows.
pub delay_for-eq :
    (base max attempt : ℕ)
    → base ≤ max
    → max < 2 ^ 63
    → delay_for base max attempt
      ≡ (if leb 62 attempt || ltb max (base * 2 ^ attempt) then max else base * 2 ^ attempt)
unfolding delay_for
delay_for-eq base max attempt h k = elim (Bool-cases (ltb max (base * 2 ^ attempt))) [
  | inl over ↦ ground (arith, shift_iff base max attempt)
  | inr under ↦ ground (arith, shift_iff base max attempt, fits (base * 2 ^ attempt))
]

at_least_base : (base n : ℕ) → base ≤ base * 2 ^ n
at_least_base base n = omega (arith, mul-one base, (mul-le-mul_left base (below_power n)))

delay_for-bounds :
    (base max attempt : ℕ)
    → base ≤ max
    → max < 2 ^ 63
    → (base ≤ delay_for base max attempt) × (delay_for base max attempt ≤ max)
delay_for-bounds base max attempt h k =
    ground (arith, delay_for-eq base max attempt, at_least_base base attempt)

jittered-bounds :
    (jitter delay max : ℕ)
    → delay ≤ max
    → max < 2 ^ 63
    → (delay ≤ jittered jitter delay max) × (jittered jitter delay max ≤ max)
unfolding jittered
jittered-bounds jitter delay max h k = ground arith

-- Whatever the random jitter, a retry waits at least the base delay and at most the maximum, where the
-- maximum is an int64 and not below the base delay: no sum and no shift overflows.
pub jittered_delay-bounds :
    (base max attempt jitter : ℕ)
    → base ≤ max
    → max < 2 ^ 63
    → (base ≤ jittered jitter (delay_for base max attempt) max)
      × (jittered jitter (delay_for base max attempt) max ≤ max)
jittered_delay-bounds base max attempt jitter h k =
    let d = delay_for-bounds base max attempt h k in
    let j = jittered-bounds jitter (delay_for base max attempt) max d.1 k in
    (omega (arith, d.0, j.0), j.1)
