-- ===== src/Errors/RetryAfter.antt =====
-- What parseRetryAfter makes of a number of seconds, within the range of `time.Duration` and beyond.
use firezone_go.Prelude.{ℕ, suc, ◌*◌, str_eq_of_ne, ◌≤◌, some, codes, ◌≡◌, ap, ◌∙◌, arith}
use firezone_go.Prelude.Int.{pos, ◌<ℤ◌, ◌*ℤ◌, mul64, wrap64, wrap64_of_IsInt64}
use firezone_go.Errors.Api.{second, to_seconds, parse_retry_after}
use firezone_go.Go.Strconv.{itoa}
use firezone_go.Go.Strconv.Laws.{scan_int-itoa, digits-ne-nil}

scaled : (n : ℕ) → mul64 (pos n) (pos second) ≡ wrap64 (pos (n * second))
scaled n = ap wrap64 {x = ◌*ℤ◌ (pos n) (pos second)} {y = pos (n * second)} (ground arith)

to_seconds_of_pos : (n : ℕ) → to_seconds (some (pos n)) ≡ wrap64 (pos (n * second))
to_seconds_of_pos n = ground (arith, scaled n)

of_number : (n : ℕ) → n ≤ 18446744073 → parse_retry_after (itoa (pos n)) ≡ wrap64 (pos (n * second))
unfolding parse_retry_after
of_number n h =
    rw
      (
        str_eq_of_ne (itoa (pos n)) (codes "")
            (unfold itoa in digits-ne-nil (suc n) n (omega arith)),
        scan_int-itoa n (omega arith),
      )
      (to_seconds_of_pos n)

-- A Retry-After of `n` seconds, for an `n` of at most 9223372036, is read as `n` seconds.
pub parse_retry_after-itoa :
    (n : ℕ) → n ≤ 9223372036 → parse_retry_after (itoa (pos n)) ≡ pos (n * second)
parse_retry_after-itoa n h =
    of_number n (omega arith) ∙ wrap64_of_IsInt64 (pos (n * second)) (omega arith)

-- A Retry-After of `n` seconds, for an `n` from 9223372037 to 18446744073, is read as a negative wait.
pub parse_retry_after_overflow :
    (n : ℕ) → 9223372037 ≤ n → n ≤ 18446744073 → parse_retry_after (itoa (pos n)) <ℤ pos 0
unfolding wrap64
parse_retry_after_overflow n low high = rw (of_number n high) (ground arith)
