-- ===== src/Retry/Run.antt =====
-- The retry loop as a step relation: which courses a call may take, and that the loop takes one.
use firezone_go.Prelude.{
  ℕ, zero, suc, ◌+◌, ◌<◌, true, ◌∷◌, Option, none, some, Str, ◌≡◌, refl, ap, sym, ◌∙◌, ◌⊎◌, arith,
  Option-cases, inl, inr,
}
use firezone_go.Prelude.Int.{ℤ, pos, ◌<ℤ◌}
use firezone_go.Client.{Client}
use firezone_go.Errors.{GoError, external, ApiError, Result, ok, err, Result-cases}
use firezone_go.Go.Values.{Values}
use firezone_go.Http.{Log, waited, World, M, RequestBody, raw_request}
use firezone_go.Retry.{
  retry_wait, rate_limit, return_with, go_on, wait_pass, after_attempt, retry_loop,
  request_with_retry,
}

module _ (w : World) (c : Client) (once : M Str) where
  -- `Run a log r log'`: from attempt `a` on, with `log` behind it, a call returns `r` and leaves
  -- `log'`.
  pub data Run : ℕ → Log → Result Str → Log → Type 0 where
    success :
        {a : ℕ} {log log' : Log} {body : Str}
        → (once log).0 ≡ ok body
        → (once log).1 ≡ log'
        → Run a log (ok body) log'
    refused :
        {a : ℕ} {log log' : Log} {e : GoError}
        → (once log).0 ≡ err e
        → (once log).1 ≡ log'
        → rate_limit e ≡ none
        → Run a log (err e) log'
    exhausted :
        {a : ℕ} {log log' : Log} {e : GoError} {x : ApiError}
        → (once log).0 ≡ err e
        → (once log).1 ≡ log'
        → rate_limit e ≡ some x
        → pos a ≡ c.max_retries
        → Run a log (err e) log'
    interrupted :
        {a : ℕ} {log log' : Log} {e : GoError} {x : ApiError} {s : Str}
        → (once log).0 ≡ err e
        → (once log).1 ≡ log'
        → rate_limit e ≡ some x
        → pos a <ℤ c.max_retries
        → w.ctx_done log' (retry_wait (w.random log') c a x.retry_after) ≡ some s
        → Run a log (err (external s)) log'
    again :
        {a : ℕ} {log log' log'' : Log} {e : GoError} {x : ApiError} {r : Result Str} (d : ℤ)
        → (once log).0 ≡ err e
        → (once log).1 ≡ log'
        → rate_limit e ≡ some x
        → pos a <ℤ c.max_retries
        → d ≡ retry_wait (w.random log') c a x.retry_after
        → w.ctx_done log' d ≡ none
        → Run (a + 1) (waited d ∷ log') r log''
        → Run a log r log''

  -- What a pass does, by the outcome of its attempt.
  pass_success :
      (r : Result Str) (body : Str) (a : ℕ) (log : Log)
      → r ≡ ok body
      → after_attempt w c r a log ≡ return_with (ok body) log
  unfolding after_attempt
  pass_success r body a log h = rw h

  pass_refused :
      (r : Result Str) (e : GoError) (a : ℕ) (log : Log)
      → r ≡ err e
      → rate_limit e ≡ none
      → after_attempt w c r a log ≡ return_with (err e) log
  unfolding after_attempt
  pass_refused r e a log h other = rw (h, after_attempt, other)

  pass_exhausted :
      (r : Result Str) (e : GoError) (x : ApiError) (a : ℕ) (log : Log)
      → r ≡ err e
      → rate_limit e ≡ some x
      → c.max_retries ≡ pos a
      → after_attempt w c r a log ≡ return_with (err e) log
  unfolding after_attempt
  pass_exhausted r e x a log h limited budget =
      rw (h, after_attempt, limited, budget) (ground arith)

  pass_waiting :
      (r : Result Str) (e : GoError) (x : ApiError) (a n : ℕ) (log : Log)
      → r ≡ err e
      → rate_limit e ≡ some x
      → c.max_retries ≡ pos n
      → a < n
      → after_attempt w c r a log ≡ wait_pass w c e x a log
  unfolding after_attempt
  pass_waiting r e x a n log h limited budget before =
      rw (h, after_attempt, limited, budget) (ground arith)

  wait_pass-cases :
      (e : GoError) (x : ApiError) (a : ℕ) (log : Log)
      → let d = retry_wait (w.random log) c a x.retry_after in
        ((s : Str) × (w.ctx_done log d ≡ some s)
          × (wait_pass w c e x a log ≡ return_with (err (external s)) log))
        ⊎ ((w.ctx_done log d ≡ none) × (wait_pass w c e x a log ≡ go_on e (waited d ∷ log)))
  unfolding wait_pass
  wait_pass-cases e x a log =
      elim (Option-cases (w.ctx_done log (retry_wait (w.random log) c a x.retry_after))) [
        | inl none_yet ↦ inr (none_yet, rw (none_yet, wait_pass))
        | inr (s, over) ↦ inl (s, over, rw (over, wait_pass))
      ]

  retry_loop-Run :
      (n k a : ℕ) (last : Option GoError) (log : Log)
      → c.max_retries ≡ pos n
      → a + k ≡ n
      → Run a log
          (retry_loop w c once (suc k) a last log).0
          (retry_loop w c once (suc k) a last log).1
  unfolding retry_loop
  retry_loop-Run n zero a last log budget left = elim (Result-cases (once log).0) [
    | inl (body, done) ↦ rw (pass_success (once log).0 body a (once log).1 done) (success done refl)
    | inr (e, failed) ↦ elim (Option-cases (rate_limit e)) [
      | inl other ↦
          rw (pass_refused (once log).0 e a (once log).1 failed other) (refused failed refl other)
      | inr (x, limited) ↦
          let at_end : c.max_retries ≡ pos a = budget ∙ ap pos (omega arith) in
          rw (pass_exhausted (once log).0 e x a (once log).1 failed limited at_end)
            (exhausted failed refl limited (sym at_end))
    ]
  ]
  retry_loop-Run n (suc k) a last log budget left = elim (Result-cases (once log).0) [
    | inl (body, done) ↦ rw (pass_success (once log).0 body a (once log).1 done) (success done refl)
    | inr (e, failed) ↦ elim (Option-cases (rate_limit e)) [
      | inl other ↦
          rw (pass_refused (once log).0 e a (once log).1 failed other) (refused failed refl other)
      | inr (x, limited) ↦
          let log' = (once log).1 in
          let before : a < n = omega arith in
          rw (pass_waiting (once log).0 e x a n log' failed limited budget before)
            (elim (wait_pass-cases e x a log') [
              | inl (s, over, stops) ↦
                  rw stops (interrupted failed refl limited (rw budget (omega arith)) over)
              | inr (free, goes) ↦ rw goes (
                  again _ failed refl limited (rw budget (omega arith)) refl free
                    (retry_loop-Run n k (a + 1) (some e) _ budget (omega arith)))
            ])
    ]
  ]

-- With retries enabled and a budget that is not negative, a call of `request_with_retry` takes one of
-- the courses of `Run` from its first attempt: it returns the outcome of its last attempt or the
-- error of its context. So the guard behind the loop is never reached.
pub request_with_retry-Run :
    (w : World) (c : Client) (n : ℕ) (method request_path : Str) (query : Option Values)
    (body : RequestBody) (log : Log)
    → c.retry_enabled ≡ true
    → c.max_retries ≡ pos n
    → let call = request_with_retry w c method request_path query body log in
      Run w c (raw_request w c method request_path query body) 0 log call.0 call.1
unfolding request_with_retry
request_with_retry-Run w c n method request_path query body log enabled budget =
    simp (enabled, budget)
      (retry_loop-Run w c (raw_request w c method request_path query body) n n 0 none log budget
        (omega arith))
