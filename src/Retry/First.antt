-- ===== src/Retry/First.antt =====
-- A call whose first attempt is not rate limited, and the number of rounds of the loop.
use firezone_go.Prelude.{
  ℕ, suc, ◌≤◌, ◌<◌, ◌⊎◌, ◌≢◌, false, Option, none, Str, ◌≡◌, refl, ap, ◌∙◌, Bool-cases, inl, inr,
  arith, ◌==◌, ◌∷◌,
}
use firezone_go.Prelude.Int.{pos}
use firezone_go.Client.{Client}
use firezone_go.Errors.{GoError, api, ok, err}
use firezone_go.Errors.Api.{Response, parse_api_error}
use firezone_go.Go.Url.{Url}
use firezone_go.Http.Status.{
  read_reply-TellsStatus, read_reply_outside, parse_api_error-TellsStatus,
}
use firezone_go.Path.{resolve_path}
use firezone_go.Go.Values.{Values}
use firezone_go.Http.{
  Log, World, M, RequestBody, raw_request, sent, replied, read_reply, request_of, with_query, send,
}
use firezone_go.Retry.{rate_limit, request_with_retry, retry_loop, after_attempt}

module _ (w : World) (c : Client) (once : M Str) where
  loop_success :
      (n : ℕ) (b : Str) (log : Log)
      → (once log).0 ≡ ok b
      → retry_loop w c once (suc n) 0 none log ≡ (ok b, (once log).1)
  unfolding retry_loop after_attempt
  loop_success n b log h = rw (h, after_attempt) refl

  loop_failure :
      (n : ℕ) (e : GoError) (log : Log)
      → (once log).0 ≡ err e
      → rate_limit e ≡ none
      → retry_loop w c once (suc n) 0 none log ≡ (err e, (once log).1)
  unfolding retry_loop after_attempt
  loop_failure n e log h other = rw (h, after_attempt, other) refl

-- A first attempt that succeeds is the outcome of the call.
request_with_retry_success :
    (w : World) (c : Client) (n : ℕ) (method request_path : Str) (query : Option Values)
    (body : RequestBody) (log : Log) (b : Str)
    → c.max_retries ≡ pos n
    → (raw_request w c method request_path query body log).0 ≡ ok b
    → request_with_retry w c method request_path query body log
      ≡ (ok b, (raw_request w c method request_path query body log).1)
unfolding request_with_retry
request_with_retry_success w c n method request_path query body log b budget h =
    elim (Bool-cases c.retry_enabled) [
      | inl e ↦
          simp (e, budget)
            (loop_success w c (raw_request w c method request_path query body) n b log h)
      | inr e ↦ simp e (ap (λ r. (r, (raw_request w c method request_path query body log).1)) h)
    ]

-- So is a first attempt that fails, other than by a rate limit.
pub request_with_retry_failure :
    (w : World) (c : Client) (n : ℕ) (method request_path : Str) (query : Option Values)
    (body : RequestBody) (log : Log) (x : GoError)
    → c.max_retries ≡ pos n
    → (raw_request w c method request_path query body log).0 ≡ err x
    → rate_limit x ≡ none
    → request_with_retry w c method request_path query body log
      ≡ (err x, (raw_request w c method request_path query body log).1)
unfolding request_with_retry
request_with_retry_failure w c n method request_path query body log x budget h other =
    elim (Bool-cases c.retry_enabled) [
      | inl e ↦
          simp (e, budget)
            (loop_failure w c (raw_request w c method request_path query body) n x log h other)
      | inr e ↦ simp e (ap (λ r. (r, (raw_request w c method request_path query body log).1)) h)
    ]

not_rate_limited :
    (resp : Response) → resp.status_code ≢ 429 → rate_limit (api (parse_api_error resp)) ≡ none
unfolding rate_limit
not_rate_limited resp other =
    let (_, _, _, _, _, tells) = parse_api_error-TellsStatus resp in
    let not_429 : (resp.status_code == 429) ≡ false = ground arith in rw (tells ∙ not_429) refl

-- The first request of a call is built, and the server answers it.
pub record Answered (w : World) (c : Client) (method request_path : Str) (query : Option Values)
    (body : RequestBody) (log : Log) (u : Url) (resp : Response) : Type 0 where
  pub retries : ℕ
  pub budget : c.max_retries ≡ pos retries
  pub resolves : resolve_path c.base_url request_path ≡ ok u
  pub accepts : w.refusal (request_of c method (with_query query u) body) ≡ none
  pub replies : w.reply log (request_of c method (with_query query u) body) ≡ replied resp

module _ (w : World) (c : Client) (method request_path : Str) (query : Option Values)
    (body : RequestBody) (log : Log) (u : Url) (resp : Response)
    (h : Answered w c method request_path query body log u resp) where
  raw_request_answered :
      raw_request w c method request_path query body log
      ≡ (read_reply (replied resp), sent (request_of c method (with_query query u) body) ∷ log)
  unfolding raw_request send
  raw_request_answered = rw (h.resolves, send, h.accepts, h.replies) refl

  -- An answer of status 200 to 299 is the outcome, after one request.
  pub answered_success :
      200 ≤ resp.status_code
      → resp.status_code < 300
      → request_with_retry w c method request_path query body log
        ≡ (ok resp.body, sent (request_of c method (with_query query u) body) ∷ log)
  answered_success low high =
      let read = (read_reply-TellsStatus resp).0 low high in
      request_with_retry_success w c h.retries method request_path query body log resp.body h.budget
        (ap (λ p. p.0) raw_request_answered ∙ read)
      ∙ ap (λ p. (ok resp.body, p.1)) raw_request_answered

  -- An answer of any other status but 429 is an error that tells it, after one request.
  pub answered_failure :
      (resp.status_code < 200) ⊎ (300 ≤ resp.status_code)
      → resp.status_code ≢ 429
      → request_with_retry w c method request_path query body log ≡ (
        err (api (parse_api_error resp)),
        sent (request_of c method (with_query query u) body) ∷ log,
      )
  answered_failure outside other =
      request_with_retry_failure w c h.retries method request_path query body log _ h.budget
        (ap (λ p. p.0) raw_request_answered ∙ read_reply_outside resp outside)
        (not_rate_limited resp other)
      ∙ ap (λ p. (err (api (parse_api_error resp)), p.1)) raw_request_answered
