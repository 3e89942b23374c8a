-- ===== src/Retry/Recovery.antt =====
-- That the retries reach a server which recovers within the budget.
use firezone_go.Prelude.{
  ℕ, suc, ◌≤◌, ◌<◌, true, Option, none, Str, ◌≡◌, ◌≢◌, refl, ap, sym, ◌∙◌, ◌∷◌, ◌⊎◌, inl, inr,
  arith, ==_iff,
}
use firezone_go.Prelude.Int.{ℤ, pos, pos_part}
use firezone_go.Client.{Client}
use firezone_go.Errors.{ApiError, GoError, Result, ok, err, api, as_api_error, is_rate_limited}
use firezone_go.Errors.Api.{Response}
use firezone_go.Go.Url.{Url}
use firezone_go.Go.Values.{Values}
use firezone_go.Http.{
  Log, World, M, Request, RequestBody, sent, replied, read_reply, request_of, with_query, send,
  raw_request,
}
use firezone_go.Http.Status.{read_reply-TellsStatus}
use firezone_go.Path.{resolve_path}
use firezone_go.Retry.{rate_limit, request_with_retry}
use firezone_go.Retry.Run.{
  Run, success, refused, exhausted, interrupted, again, request_with_retry-Run,
}
use firezone_go.Retry.Trace.{sends}

-- A success, or a rate limit that is still allowed.
abbrev pub IsAnswer : ℕ → Log → Response → Type 0
IsAnswer k log resp =
    ((200 ≤ resp.status_code) × (resp.status_code < 300))
    ⊎ ((resp.status_code ≡ 429) × (sends log < k))

-- A world in which every request is built, the context does not end, and the server answers each
-- request by a success or by 429, the latter only while fewer than `k` requests have been sent.
pub record Recovers (w : World) (k : ℕ) : Type 0 where
  pub accepts : (req : Request) → w.refusal req ≡ none
  pub patient : (log : Log) (d : ℤ) → w.ctx_done log d ≡ none
  pub answers :
      (log : Log) (req : Request)
      → (resp : Response) × (w.reply log req ≡ replied resp) × IsAnswer k log resp

-- A response to `req` that is a success, received when `past` was behind the client.
pub record Received (w : World) (req : Request) (past : Log) : Type 0 where
  pub resp : Response
  pub replies : w.reply past req ≡ replied resp
  pub low : 200 ≤ resp.status_code
  pub high : resp.status_code < 300

-- What a call returned and left is the body of a success that the server gave to its last request.
pub record Success (w : World) (req : Request) (r : Result Str) (log : Log) : Type 0 where
  pub past : Log
  pub received : Received w req past
  pub result : r ≡ ok received.resp.body
  pub left : log ≡ sent req ∷ past

-- An attempt that gives the body of a success, or is rate limited while fewer than `k` requests have
-- been sent; in either case it sends one.
abbrev Attempt : World → Request → M Str → ℕ → Log → Type 0
Attempt w req once k log =
    (((got : Received w req log) × ((once log).0 ≡ ok got.resp.body))
      ⊎ ((e : GoError) × ((once log).0 ≡ err e) × (rate_limit e ≢ none) × (sends log < k)))
    × ((once log).1 ≡ sent req ∷ log)

module _ (w : World) (c : Client) (req : Request) (once : M Str) (n k : ℕ) (fits : k ≤ n)
    (budget : c.max_retries ≡ pos n) (patient : (log : Log) (d : ℤ) → w.ctx_done log d ≡ none)
    (attempt : (log : Log) → Attempt w req once k log) where
  failed_early :
      (log : Log) (e : GoError) → (once log).0 ≡ err e → (rate_limit e ≢ none) × (sends log < k)
  failed_early log e failed = elim (attempt log).0 [
    | inl (got, done) ↦ cc
    | inr (x, is_x, limited, early) ↦ (λ h. limited (cc), early)
  ]

  succeeded :
      (log log' : Log) (body : Str)
      → (once log).0 ≡ ok body
      → (once log).1 ≡ log'
      → Success w req (ok body) log'
  succeeded log log' body done after = elim (attempt log).0 [
    | inl (got, same) ↦ record {
      past = log;
      received = got;
      result = sym done ∙ same;
      left = sym after ∙ (attempt log).1;
    }
    | inr (x, is_x, limited, early) ↦ cc
  ]

  Run-Success :
      {a : ℕ} {log log' : Log} {r : Result Str}
      → Run w c once a log r log'
      → a ≤ sends log
      → Success w req r log'
  Run-Success {log = log} {log' = log'} (success {body = body} done after) behind =
      succeeded log log' body done after
  Run-Success {log = log} (refused {e = e} failed after other) behind =
      absurd ((failed_early log e failed).0 other)
  Run-Success {log = log} (exhausted {e = e} failed after limited at_end) behind =
      let early = (failed_early log e failed).1 in
      let last = ap pos_part (at_end ∙ budget) in absurd (omega arith)
  Run-Success (interrupted failed after limited more over) behind = cc (patient _ _)
  Run-Success {a} {log} (again d failed after limited more wait free run) behind =
      let grown : sends (once log).1 ≡ suc (sends log) = ap sends (attempt log).1 in
      let same = ap sends after in Run-Success run (omega arith)

is_rate_limited-rate_limit :
    (a : ApiError) → is_rate_limited (api a) ≡ true → rate_limit (api a) ≢ none
unfolding rate_limit as_api_error
is_rate_limited-rate_limit a h = rw h (λ e. cc)

-- The outcome of a request that the server answers.
answer_lem :
    (w : World) (req : Request) (k : ℕ) (log : Log) (resp : Response)
    → w.reply log req ≡ replied resp
    → IsAnswer k log resp
    → ((got : Received w req log) × (read_reply (replied resp) ≡ ok got.resp.body))
      ⊎ ((e : GoError) × (read_reply (replied resp) ≡ err e)
          × (rate_limit e ≢ none)
          × (sends log < k))
answer_lem w req k log resp replies (inl (low, high)) = inl (
  record { resp = resp; replies = replies; low = low; high = high },
  (read_reply-TellsStatus resp).0 low high,
)
answer_lem w req k log resp replies (inr (limited, early)) =
    let (a, failed, told, _) = (read_reply-TellsStatus resp).1 (inr (omega arith)) in
    let (_, _, _, _, _, is_limit) = told in
    inr (
      api a,
      failed,
      is_rate_limited-rate_limit a (is_limit ∙ (==_iff resp.status_code 429).1 limited),
      early,
    )

send-Attempt :
    (w : World) (k : ℕ) (req : Request)
    → Recovers w k
    → (log : Log) → Attempt w req (send w req) k log
unfolding send
send-Attempt w k req h log =
    let (resp, replies, is_answer) = h.answers log req in
    let outcome = answer_lem w req k log resp replies is_answer in
    rw (h.accepts req, send, replies) (outcome, refl)

-- With retries enabled and a path that resolves to a URL: if every request can be built, the
-- context does not end, the server answers every request by a success or by 429, and by 429 only
-- while fewer than `k` requests have been sent, and the budget is at least `k` retries, then a
-- call returns the body of a response of status 200 to 299, which the server gave to its last
-- request, of the method, the URL with the query and the body.
pub request_with_retry_succeeds :
    (w : World) (c : Client) (n k : ℕ) (method request_path : Str) (query : Option Values)
    (body : RequestBody) (u : Url) (log : Log)
    → Recovers w k
    → k ≤ n
    → c.retry_enabled ≡ true
    → c.max_retries ≡ pos n
    → resolve_path c.base_url request_path ≡ ok u
    → let call = request_with_retry w c method request_path query body log in
      Success w (request_of c method (with_query query u) body) call.0 call.1
unfolding raw_request rate_limit
request_with_retry_succeeds w c n k method request_path query body u log h fits enabled budget
      found =
    let req = request_of c method (with_query query u) body in
    let once = raw_request w c method request_path query body in
    let attempt : (past : Log) → Attempt w req once k past =
      λ past. rw found (send-Attempt w k req h past) in
    Run-Success w c req once n k fits budget h.patient attempt
      (request_with_retry-Run w c n method request_path query body log enabled budget) (omega arith)
