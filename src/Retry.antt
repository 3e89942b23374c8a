-- ===== src/Retry.antt =====
-- retry.go: how long a retry waits, and the loop that retries a rate limited request.
pub mod First
pub mod Recovery
pub mod Rounds
pub mod Run
pub mod Sent
pub mod Trace
pub mod Wait
use firezone_go.Prelude.{
  ℕ, zero, suc, ◌+◌, ◌*◌, ◌^◌, Bool, true, false, ◌||◌, ◌&&◌, not, List, [], ◌∷◌, Option, none,
  some, Str, codes, ltb, leb, if◌then◌else◌, ◌==◌,
}
use firezone_go.Prelude.Int.{
  ℤ, pos, negsuc, ltb_ℤ, leb_ℤ, max_ℤ, min_ℤ, half, mul64, add64, wrap64, max_int64,
}
use firezone_go.Client.{Client}
use firezone_go.Errors.{
  GoError, errorf, external, api, ApiError, as_api_error, is_rate_limited, Result, ok, err,
}
use firezone_go.Errors.Api.{second}
use firezone_go.Go.Strconv.{itoa}
use firezone_go.Go.Values.{Values}
use firezone_go.Http.{Log, Event, waited, World, M, RequestBody, raw_request}

abbrev pub default_max_retry_wait : ℕ
default_max_retry_wait = 30 * second

abbrev pub max_retry_jitter : ℕ
max_retry_jitter = 2 * second

-- `time.Duration(math.Pow(2, attempt)) * time.Second`; the power is exact below 2^53.
unfoldable pub exponential_backoff : ℕ → ℤ
unfolding wrap64
exponential_backoff attempt =
    if leb 30 attempt then pos max_int64 else mul64 (pos (2 ^ attempt)) (pos second)

unfoldable pub max_retry_wait : Client → ℤ
max_retry_wait c =
    if ltb_ℤ (pos 0) c.retry_max_wait then c.retry_max_wait else pos default_max_retry_wait

-- A number below the window, 0 if the window is empty; `random n` is `rand.Int64N(n)`.
unfoldable pub draw : (ℕ → ℕ) → ℤ → ℤ
draw random (pos zero) = pos 0
draw random (pos (suc n)) = pos (random (suc n))
draw random (negsuc n) = pos 0

unfoldable pub retry_jitter : (ℕ → ℕ) → ℤ → ℤ
unfolding draw
retry_jitter random base = draw random (min_ℤ (half base) (pos max_retry_jitter))

-- The wait without its jitter.
unfoldable pub base_wait : Client → ℕ → ℤ → ℤ
unfolding max_retry_wait
base_wait c attempt retry_after =
    min_ℤ (max_ℤ retry_after (exponential_backoff attempt)) (max_retry_wait c)

unfoldable pub retry_wait : (ℕ → ℕ) → Client → ℕ → ℤ → ℤ
unfolding base_wait retry_jitter wrap64
retry_wait random c attempt retry_after =
    let wait = base_wait c attempt retry_after in add64 wait (retry_jitter random wait)

-- The error as an `*APIError` of status 429.
unfoldable pub rate_limit : GoError → Option ApiError
rate_limit e = if is_rate_limited e then as_api_error e else none

abbrev pub last_error : Option GoError → ℤ → GoError
last_error (some e) budget = e
last_error none budget =
    errorf
      (codes "firezone: retry loop made no attempts with a budget of %d; this is a bug in the SDK")
      (itoa budget ∷ [])

-- One pass of the loop returns, or goes on with an error.
pub data Pass : Type 0 where
  return_with : Result Str → Log → Pass
  go_on : GoError → Log → Pass

module _ (w : World) (c : Client) where
  -- The wait of a pass, which the end of the context cuts short.
  unfoldable pub wait_pass : GoError → ApiError → ℕ → Log → Pass
  wait_pass e a attempt log =
      let wait = retry_wait (w.random log) c attempt a.retry_after in
      elim (w.ctx_done log wait) [
        | some s ↦ return_with (err (external s)) log
        | none ↦ go_on e (waited wait ∷ log)
      ]

  unfoldable pub after_attempt : Result Str → ℕ → Log → Pass
  unfolding wait_pass
  after_attempt (ok body) attempt log = return_with (ok body) log
  after_attempt (err e) attempt log = elim (rate_limit e) [
    | none ↦ return_with (err e) log
    | some a ↦
        let at_end = leb_ℤ (pos attempt) c.max_retries && leb_ℤ c.max_retries (pos attempt) in
        if at_end then return_with (err e) log else wait_pass e a attempt log
  ]

abbrev pub finish : (GoError → M Str) → Pass → Result Str × Log
finish f (return_with r log) = (r, log)
finish f (go_on e log) = f e log

module _ (w : World) (c : Client) (attempt_once : M Str) where
  -- `rounds` is how many passes of `for attempt := 0; attempt <= c.maxRetries` are left.
  unfoldable pub retry_loop : ℕ → ℕ → Option GoError → M Str
  retry_loop zero attempt last log = (err (last_error last c.max_retries), log)
  retry_loop (suc rounds) attempt last log =
      finish (λ e. retry_loop rounds (attempt + 1) (some e))
        (after_attempt w c (attempt_once log).0 attempt (attempt_once log).1)

-- `maxRetries + 1` passes; none for a negative budget.
abbrev pub rounds_of : ℤ → ℕ
rounds_of (pos n) = suc n
rounds_of (negsuc n) = 0

unfoldable pub request_with_retry : World → Client → Str → Str → Option Values → RequestBody → M Str
unfolding retry_loop after_attempt
request_with_retry w c method request_path query body =
    let once = raw_request w c method request_path query body in
    if not c.retry_enabled then once else retry_loop w c once (rounds_of c.max_retries) 0 none
