-- ===== src/Retry/Trace.antt =====
-- What a call of `request_with_retry` leaves in the log: the requests that it sends and its waits.
use mathlib.Core.List.{append_assoc}
use firezone_go.Prelude.{
  ℕ, suc, ◌+◌, ◌≤◌, ◌-◌, true, List, [], ◌∷◌, ◌++◌, Option, none, some, Str, codes, ◌≡◌, refl, ap,
  sym, ◌∙◌, ◌⊎◌, arith, All, All-append, Option-cases, inl, inr,
}
use firezone_go.Prelude.Int.{pos, pos_part, ◌≤ℤ◌, ◌<ℤ◌, ◌+ℤ◌, max_int64}
use firezone_go.Client.{Client}
use firezone_go.Errors.{
  GoError, external, errorf_w, as_api_error, is_rate_limited, ApiError, Result, ok, err,
}
use firezone_go.Go.Values.{Values}
use firezone_go.Go.Url.{Url}
use firezone_go.Http.{
  Log, Event, sent, waited, World, M, Request, RequestBody, request_of, with_query, send,
  raw_request,
}
use firezone_go.Path.{resolve_path}
use firezone_go.Retry.{rate_limit, max_retry_wait, max_retry_jitter, request_with_retry}
use firezone_go.Retry.Run.{
  Run, success, refused, exhausted, interrupted, again, request_with_retry-Run,
}
use firezone_go.Retry.Wait.{IsRandom, retry_wait_range}

-- How often a request was sent.
abbrev pub sends : Log → ℕ
sends [] = 0
sends (sent _ ∷ log) = suc (sends log)
sends (waited _ ∷ log) = sends log

abbrev pub waits : Log → ℕ
waits [] = 0
waits (sent _ ∷ log) = waits log
waits (waited _ ∷ log) = suc (waits log)

-- One attempt sends `req`, or fails before it sends anything, and then not by a rate limit.
abbrev pub Once : World → Request → M Str → Type 0
Once w req once =
    (log : Log)
    → ((x : GoError) × ((once log).0 ≡ err x) × ((once log).1 ≡ log) × (rate_limit x ≡ none))
      ⊎ ((once log).1 ≡ sent req ∷ log)

pub rate_limit_external :
    (f : Str) (args : List Str) (s : Str) → rate_limit (errorf_w f args (external s)) ≡ none
unfolding rate_limit is_rate_limited as_api_error
rate_limit_external f args s = refl

send-Once : (w : World) (req : Request) → Once w req (send w req)
unfolding send
send-Once w req log = elim (Option-cases (w.refusal req)) [
  | inl accepted ↦ inr (rw (accepted, send))
  | inr (s, refused_by) ↦ inl (
    errorf_w (codes "firezone: building request: %w") [] (external s),
    rw (refused_by, send),
    rw (refused_by, send),
    rate_limit_external _ _ s,
  )
]

pub raw_request-Once :
    (w : World) (c : Client) (method request_path : Str) (query : Option Values)
    (body : RequestBody) (u : Url)
    → resolve_path c.base_url request_path ≡ ok u
    → Once w
        (request_of c method (with_query query u) body)
        (raw_request w c method request_path query body)
unfolding raw_request
raw_request-Once w c method request_path query body u found log =
    rw found (send-Once w (request_of c method (with_query query u) body) log)

-- An event that a call for `req` may leave: that request, or a wait within the client's bounds.
abbrev pub IsOurs : Client → Request → Event → Type 0
IsOurs c req (sent r) = r ≡ req
IsOurs c req (waited d) = (pos 1 ≤ℤ d) × (d ≤ℤ ◌+ℤ◌ (max_retry_wait c) (pos max_retry_jitter))

rate_limit_of_external : (s : Str) → rate_limit (external s) ≡ none
unfolding rate_limit is_rate_limited as_api_error
rate_limit_of_external s = refl

sends-append : (l m : Log) → sends (l ++ m) ≡ sends l + sends m
sends-append [] m = omega arith
sends-append (sent r ∷ l) m = omega (arith, sends-append l m)
sends-append (waited d ∷ l) m = omega (arith, sends-append l m)

waits-append : (l m : Log) → waits (l ++ m) ≡ waits l + waits m
waits-append [] m = omega arith
waits-append (sent r ∷ l) m = omega (arith, waits-append l m)
waits-append (waited d ∷ l) m = omega (arith, waits-append l m)

-- What a course from attempt `a` on leaves, for a budget of `n` retries.
pub record Leaves (c : Client) (req : Request) (n a : ℕ) (log : Log) (r : Result Str) (log' : Log)
    : Type 0 where
  pub events : Log
  pub appended : log' ≡ events ++ log
  pub ours : All (IsOurs c req) events
  pub bounded : a + sends events ≤ suc n
  pub spent :
      (e : GoError) (x : ApiError)
      → r ≡ err e
      → rate_limit e ≡ some x
      → (a + sends events ≡ suc n) × (a + waits events ≡ n)

module _ (w : World) (c : Client) (req : Request) (once : M Str) (n : ℕ)
    (random : (log : Log) → IsRandom (w.random log))
    (room : max_retry_wait c ≤ℤ pos (max_int64 - max_retry_jitter)) (budget : c.max_retries ≡ pos n)
    (one : Once w req once) where
  -- What one attempt adds.
  attempt_events :
      (log : Log)
      → (es : Log) × ((once log).1 ≡ es ++ log)
        × All (IsOurs c req) es
        × (sends es ≤ 1)
        × (waits es ≡ 0)
        × ((e : GoError) (x : ApiError)
            → (once log).0 ≡ err e
            → rate_limit e ≡ some x
            → sends es ≡ 1)
  attempt_events log = elim (one log) [
    | inl (y, failed, same, other) ↦ ([], same, tt, omega arith, refl, λ e x is_e limited. cc)
    | inr grown ↦ (sent req ∷ [], grown, (refl, tt), omega arith, refl, λ e x is_e limited. refl)
  ]

  -- A course that ends with one attempt.
  last_attempt :
      (a : ℕ) (log log' : Log) (r : Result Str)
      → a ≤ n
      → (once log).1 ≡ log'
      → ((e : GoError) (x : ApiError)
          → r ≡ err e
          → rate_limit e ≡ some x
          → (a ≡ n) × ((once log).0 ≡ err e))
      → Leaves c req n a log r log'
  last_attempt a log log' r before after ends =
      let (es, grown, mine, few, no_wait, exact) = attempt_events log in
      record {
        events = es;
        appended = sym after ∙ grown;
        ours = mine;
        bounded = omega arith;
        spent = λ e x is_e limited.
            let (last, failed) = ends e x is_e limited in
            let sent_it = exact e x failed limited in (omega arith, omega arith);
      }

  Run-Leaves :
      {a : ℕ} {log log' : Log} {r : Result Str}
      → Run w c once a log r log'
      → a ≤ n
      → Leaves c req n a log r log'
  Run-Leaves {a} {log} {log'} (success done after) before =
      last_attempt a log log' _ before after (λ e x is_e limited. cc)
  Run-Leaves {a} {log} {log'} (refused failed after other) before =
      last_attempt a log log' _ before after (λ e x is_e limited. cc)
  Run-Leaves {a} {log} {log'} (exhausted failed after limited at_end) before =
      last_attempt a log log' _ before after
        (λ e x is_e limited. (ap pos_part (at_end ∙ budget), failed ∙ is_e))
  Run-Leaves {a} {log} {log'} (interrupted {s = s} failed after limited more over) before =
      last_attempt a log log' _ before after (λ e x is_e late. cc (rate_limit_of_external s))
  Run-Leaves {a} {log} {log'}
        (again {log' = log1} {e = e} {x = x} d failed after limited more wait free run) before =
      let (es, grown, mine, few, no_wait, exact) = attempt_events log in
      let sent_it = exact e x failed limited in
      let less : pos a <ℤ pos n = rw budget at more in
      let rest = Run-Leaves run (omega arith) in
      let in_range = retry_wait_range (w.random log1) c a x.retry_after (random log1) room in
      let count = sends-append rest.events (waited d ∷ es) in
      let count_waits = waits-append rest.events (waited d ∷ es) in
      record {
        events = rest.events ++ waited d ∷ es;
        appended =
            rest.appended
            ∙ ap (λ l. rest.events ++ waited d ∷ l) (sym after ∙ grown)
            ∙ sym (append_assoc rest.events (waited d ∷ es) log);
        ours = All-append _ rest.events _ rest.ours (rw wait in_range, mine);
        bounded = omega (arith, rest.bounded);
        spent = λ e' x' is_e late.
            let (sum, sum_waits) = rest.spent e' x' is_e late in (omega arith, omega arith);
      }

-- With retries enabled, a budget of `n` retries, random numbers in their range, a cap that leaves
-- room for the jitter in an int64, and a path that resolves to a URL: whatever the server answers
-- and however the context ends, a call sends one and the same request at most `n + 1` times, and
-- nothing else; its waits are positive and at most the cap and two seconds. It returns a rate
-- limit error only after `n + 1` requests and `n` waits.
pub request_with_retry_trace :
    (w : World) (c : Client) (n : ℕ) (method request_path : Str) (query : Option Values)
    (body : RequestBody) (u : Url) (log : Log)
    → ((past : Log) → IsRandom (w.random past))
    → max_retry_wait c ≤ℤ pos (max_int64 - max_retry_jitter)
    → c.retry_enabled ≡ true
    → c.max_retries ≡ pos n
    → resolve_path c.base_url request_path ≡ ok u
    → let call = request_with_retry w c method request_path query body log in
      Leaves c (request_of c method (with_query query u) body) n 0 log call.0 call.1
request_with_retry_trace w c n method request_path query body u log random room enabled budget
      found =
    Run-Leaves w c _ (raw_request w c method request_path query body) n random room budget
      (raw_request-Once w c method request_path query body u found)
      (request_with_retry-Run w c n method request_path query body log enabled budget) (omega arith)
