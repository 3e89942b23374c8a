-- ===== src/Retry/Wait.antt =====
-- Bounds of the wait before a retry.
use native.Mathlib.Nat.{pow-le-pow_right, one-le-pow}
use firezone_go.Prelude.{
  ℕ, zero, suc, ◌-◌, ◌*◌, ◌^◌, ◌<◌, ◌≤◌, leb, ◌≡◌, ◌∙◌, arith, ap, Bool-cases, inl, inr,
}
use firezone_go.Prelude.Int.{
  ℤ, pos, negsuc, ◌≤ℤ◌, ◌<ℤ◌, max_ℤ, min_ℤ, half, add64, ◌+ℤ◌, ◌*ℤ◌, wrap64, wrap64_of_IsInt64,
  IsInt64, max_int64,
}
use firezone_go.Client.{Client}
use firezone_go.Errors.Api.{second}
use firezone_go.Retry.{
  max_retry_jitter, exponential_backoff, max_retry_wait, draw, retry_jitter, base_wait, retry_wait,
}

-- What rand.Int64N promises.
abbrev pub IsRandom : (ℕ → ℕ) → Type 0
IsRandom random = (n : ℕ) → random (suc n) < suc n

pos_times : (a b : ℕ) → ◌*ℤ◌ (pos a) (pos b) ≡ pos (a * b)
pos_times a b = ground arith

-- The backoff doubles with every attempt, and nothing overflows before the guard.
exponential_backoff_lem :
    (attempt : ℕ) → attempt < 30 → exponential_backoff attempt ≡ pos (2 ^ attempt * second)
unfolding exponential_backoff
exponential_backoff_lem attempt h =
    let bound : 2 ^ attempt ≤ 2 ^ 29 =
      pow-le-pow_right {n = 2} (omega arith) {i = attempt} {j = 29} (omega arith) in
    let fits : IsInt64 (pos (2 ^ attempt * second)) = omega (arith, bound) in
    elim (Bool-cases (leb 30 attempt)) [
      | inl late ↦ absurd (ground arith)
      | inr early ↦ rw early (ap wrap64 (pos_times (2 ^ attempt) second) ∙ wrap64_of_IsInt64 _ fits)
    ]

le-exponential_backoff : (attempt : ℕ) → pos second ≤ℤ exponential_backoff attempt
le-exponential_backoff attempt = elim (Bool-cases (leb 30 attempt)) [
  | inl late ↦ unfold exponential_backoff in rw late (omega arith)
  | inr early ↦
      let one : 1 ≤ 2 ^ attempt = one-le-pow attempt 2 (omega arith) in
      rw (exponential_backoff_lem attempt (ground arith)) (omega (arith, one))
]

le-max_retry_wait : (c : Client) → pos 1 ≤ℤ max_retry_wait c
unfolding max_retry_wait
le-max_retry_wait c = ground arith

-- Arithmetic of the clamped wait, over its parts.
clamp_lem :
    (ra backoff cap : ℤ)
    → pos 1 ≤ℤ backoff
    → pos 1 ≤ℤ cap
    → let b = min_ℤ (max_ℤ ra backoff) cap in
      (pos 1 ≤ℤ b) × (min_ℤ ra cap ≤ℤ b) × (min_ℤ backoff cap ≤ℤ b) × (b ≤ℤ cap)
clamp_lem ra backoff cap hb hc = ground arith

base_wait_bounds :
    (c : Client) (attempt : ℕ) (ra : ℤ)
    → let cap = max_retry_wait c in
      let b = base_wait c attempt ra in
      (pos 1 ≤ℤ b)
      × (min_ℤ ra cap ≤ℤ b)
      × (min_ℤ (exponential_backoff attempt) cap ≤ℤ b)
      × (b ≤ℤ cap)
unfolding base_wait
base_wait_bounds c attempt ra =
    clamp_lem ra (exponential_backoff attempt) (max_retry_wait c)
      (omega (arith, le-exponential_backoff attempt)) (le-max_retry_wait c)

draw_bounds :
    (random : ℕ → ℕ) (window : ℤ)
    → IsRandom random
    → pos 0 ≤ℤ window
    → (pos 0 ≤ℤ draw random window) × (draw random window ≤ℤ window)
unfolding draw
draw_bounds random (pos zero) r h = omega arith
draw_bounds random (pos (suc n)) r h = omega (arith, r n)
draw_bounds random (negsuc n) r h = omega arith

window_bounds :
    (b : ℤ) (n : ℕ)
    → pos 1 ≤ℤ b
    → let window = min_ℤ (half b) (pos n) in
      (pos 0 ≤ℤ window) × (window ≤ℤ half b) × (window ≤ℤ pos n)
window_bounds b n h = ground arith

retry_jitter_bounds :
    (random : ℕ → ℕ) (b : ℤ)
    → IsRandom random
    → pos 1 ≤ℤ b
    → let j = retry_jitter random b in (pos 0 ≤ℤ j) × (j ≤ℤ half b) × (j ≤ℤ pos max_retry_jitter)
unfolding retry_jitter
retry_jitter_bounds random b r h =
    let (low, by_half, by_cap) = window_bounds b max_retry_jitter h in
    let (above, below) = draw_bounds random (min_ℤ (half b) (pos max_retry_jitter)) r low in
    (above, omega arith, omega arith)

add64_lem :
    (a b : ℤ)
    → pos 0 ≤ℤ a
    → pos 0 ≤ℤ b
    → a ≤ℤ pos (max_int64 - max_retry_jitter)
    → b ≤ℤ pos max_retry_jitter
    → add64 a b ≡ ◌+ℤ◌ a b
unfolding wrap64
add64_lem a b ha hb ka kb = ground arith

sum_bounds :
    (b j : ℤ) (n : ℕ)
    → pos 0 ≤ℤ j
    → j ≤ℤ half b
    → j ≤ℤ pos n
    → (b ≤ℤ ◌+ℤ◌ b j) × (◌+ℤ◌ b j ≤ℤ ◌+ℤ◌ b (half b)) × (◌+ℤ◌ b j ≤ℤ ◌+ℤ◌ b (pos n))
sum_bounds b j n h k l = ground arith

-- A wait is at least the base wait and at most half of it or two seconds longer; the base wait is
-- at least the server's Retry-After and at least the backoff, as far as the cap allows, and never
-- above the cap. The random numbers are assumed to be in their range, and the cap to leave room
-- for the jitter in an int64.
pub retry_wait_bounds :
    (random : ℕ → ℕ) (c : Client) (attempt : ℕ) (retry_after : ℤ)
    → IsRandom random
    → max_retry_wait c ≤ℤ pos (max_int64 - max_retry_jitter)
    → let base = base_wait c attempt retry_after in
      let wait = retry_wait random c attempt retry_after in
      (min_ℤ retry_after (max_retry_wait c) ≤ℤ base)
      × (min_ℤ (exponential_backoff attempt) (max_retry_wait c) ≤ℤ base)
      × (base ≤ℤ max_retry_wait c)
      × (base ≤ℤ wait)
      × (wait ≤ℤ ◌+ℤ◌ base (half base))
      × (wait ≤ℤ ◌+ℤ◌ base (pos max_retry_jitter))
unfolding retry_wait
retry_wait_bounds random c attempt retry_after r room =
    let b = base_wait c attempt retry_after in
    let j = retry_jitter random b in
    let (positive, by_server, by_backoff, below_cap) = base_wait_bounds c attempt retry_after in
    let (low, by_half, by_two) = retry_jitter_bounds random b r positive in
    let exact : add64 b j ≡ ◌+ℤ◌ b j = add64_lem b j (omega arith) low (omega arith) by_two in
    let (grows, half_more, two_more) = sum_bounds b j max_retry_jitter low by_half by_two in
    (by_server, by_backoff, below_cap, rw exact grows, rw exact half_more, rw exact two_more)

clamped :
    (base wait cap : ℤ) (n : ℕ)
    → pos 1 ≤ℤ base
    → base ≤ℤ cap
    → base ≤ℤ wait
    → wait ≤ℤ ◌+ℤ◌ base (pos n)
    → (pos 1 ≤ℤ wait) × (wait ≤ℤ ◌+ℤ◌ cap (pos n))
clamped base wait cap n h k l m = ground arith

-- With random numbers in their range and a cap that leaves room for the jitter in an int64, every
-- wait is positive, and at most the cap and two seconds.
pub retry_wait_range :
    (random : ℕ → ℕ) (c : Client) (attempt : ℕ) (retry_after : ℤ)
    → IsRandom random
    → max_retry_wait c ≤ℤ pos (max_int64 - max_retry_jitter)
    → let wait = retry_wait random c attempt retry_after in
      (pos 1 ≤ℤ wait) × (wait ≤ℤ ◌+ℤ◌ (max_retry_wait c) (pos max_retry_jitter))
retry_wait_range random c attempt retry_after r room =
    let (_, _, below_cap, grows, _, by_two) =
      retry_wait_bounds random c attempt retry_after r room in
    clamped (base_wait c attempt retry_after) _ (max_retry_wait c) max_retry_jitter
      (base_wait_bounds c attempt retry_after).0 below_cap grows by_two

below :
    (wait cap retry_after : ℤ) (n : ℕ)
    → wait ≤ℤ ◌+ℤ◌ cap (pos n)
    → ◌+ℤ◌ cap (pos n) <ℤ retry_after
    → wait <ℤ retry_after
below wait cap retry_after n h k = omega arith

-- With random numbers in their range and a cap that leaves room for the jitter in an int64, a
-- Retry-After of more than the cap and two seconds is not waited out: every wait, at any attempt,
-- ends before the time that the server asked for.
pub retry_wait-lt-retry_after :
    (random : ℕ → ℕ) (c : Client) (attempt : ℕ) (retry_after : ℤ)
    → IsRandom random
    → max_retry_wait c ≤ℤ pos (max_int64 - max_retry_jitter)
    → ◌+ℤ◌ (max_retry_wait c) (pos max_retry_jitter) <ℤ retry_after
    → retry_wait random c attempt retry_after <ℤ retry_after
retry_wait-lt-retry_after random c attempt retry_after r room late =
    below _ (max_retry_wait c) retry_after max_retry_jitter
      (retry_wait_range random c attempt retry_after r room).1 late
