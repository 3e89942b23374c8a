-- ===== src/Tests/Retries.antt =====
-- retry.go: the retry loop and its waits.
use firezone_go.Prelude.{◌+◌, inl, inr, Str, ℕ, ◌*◌, [], ◌∷◌, none, codes, ◌≡◌, refl, arith}
use firezone_go.Prelude.Int.{pos, ◌≤ℤ◌, ◌<ℤ◌, ◌+ℤ◌, min_ℤ, half}
use firezone_go.Errors.{ok}
use firezone_go.Errors.Api.{second}
use firezone_go.Errors.RetryAfter.{parse_retry_after_overflow}
use firezone_go.Errors.Api.{parse_retry_after, Response}
use firezone_go.Go.Strconv.{itoa}
use firezone_go.Go.Url.{Url}
use firezone_go.Http.{M, Log, Request, replied, sent, waited, request_of, with_query, raw_request}
use firezone_go.Path.{resolve_path}
use firezone_go.Retry.{
  request_with_retry, retry_loop, rounds_of, retry_wait, base_wait, max_retry_wait,
  max_retry_jitter, exponential_backoff,
}
use firezone_go.Retry.Recovery.{Recovers, IsAnswer, Success, request_with_retry_succeeds}
use firezone_go.Retry.Rounds.{retry_loop_enough}
use firezone_go.Retry.Run.{Run, request_with_retry-Run}
use firezone_go.Retry.Trace.{Leaves, request_with_retry_trace}
use firezone_go.Retry.Wait.{retry_wait_bounds, retry_wait-lt-retry_after}
use firezone_go.Tests.Data.{
  sites_url, found, client, world, random_lem, room, limited, token_response,
}

retried : request_with_retry world client (codes "GET") (codes "sites") none none [] ≡ (
  ok token_response.body,
  sent (request_of client (codes "GET") sites_url none)
      ∷ waited (pos (5 * second))
      ∷ sent (request_of client (codes "GET") sites_url none)
      ∷ [],
)
unfolding request_with_retry raw_request resolve_path firezone_go.Go.Escape.unescape
    firezone_go.Go.Strings.trim_suffix firezone_go.Go.Url.escaped_path firezone_go.Go.Escape.escape
    firezone_go.Retry.rate_limit firezone_go.Errors.is_rate_limited
    firezone_go.Errors.Api.parse_api_error firezone_go.Errors.Api.parse_details retry_wait
    parse_retry_after firezone_go.Go.Strconv.scan_int exponential_backoff
retried = refl

request_with_retry_trace_example :
    let call = request_with_retry world client (codes "GET") (codes "sites") none none [] in
    Leaves client
      (request_of client (codes "GET") (with_query none sites_url) none)
      2
      0
      []
      call.0
      call.1
request_with_retry_trace_example =
    request_with_retry_trace world client 2 (codes "GET") (codes "sites") none none sites_url []
      random_lem room refl refl found

request_with_retry-Run_example :
    let call = request_with_retry world client (codes "GET") (codes "sites") none none [] in
    Run world client
      (raw_request world client (codes "GET") (codes "sites") none none)
      0
      []
      call.0
      call.1
request_with_retry-Run_example =
    request_with_retry-Run world client 2 (codes "GET") (codes "sites") none none [] refl refl

abbrev no_random : ℕ → ℕ
no_random n = 0

retry_wait_bounds_example :
    let base = base_wait client 3 (pos (5 * second)) in
    let wait = retry_wait no_random client 3 (pos (5 * second)) in
    (min_ℤ (pos (5 * second)) (max_retry_wait client) ≤ℤ base)
    × (min_ℤ (exponential_backoff 3) (max_retry_wait client) ≤ℤ base)
    × (base ≤ℤ max_retry_wait client)
    × (base ≤ℤ wait)
    × (wait ≤ℤ ◌+ℤ◌ base (half base))
    × (wait ≤ℤ ◌+ℤ◌ base (pos max_retry_jitter))
retry_wait_bounds_example =
    retry_wait_bounds no_random client 3 (pos (5 * second)) (random_lem []) room

late : ◌+ℤ◌ (max_retry_wait client) (pos max_retry_jitter) <ℤ pos (120 * second)
unfolding max_retry_wait
late = omega arith

retry_wait-lt-retry_after_example :
    retry_wait no_random client 0 (pos (120 * second)) <ℤ pos (120 * second)
retry_wait-lt-retry_after_example =
    retry_wait-lt-retry_after no_random client 0 (pos (120 * second)) (random_lem []) room late

parse_retry_after_overflow_example : parse_retry_after (itoa (pos 9223372037)) <ℤ pos 0
parse_retry_after_overflow_example =
    parse_retry_after_overflow 9223372037 (omega arith) (omega arith)

answers_lem :
    (log : Log) (req : Request)
    → (resp : Response) × (world.reply log req ≡ replied resp) × IsAnswer 1 log resp
answers_lem [] req = (limited, refl, inr (refl, omega arith))
answers_lem (_ ∷ _) req = (token_response, refl, inl (omega arith, omega arith))

-- The server of these tests refuses its first request only.
recovers : Recovers world 1
recovers = record { accepts = λ req. refl; patient = λ log d. refl; answers = answers_lem }

request_with_retry_succeeds_example :
    let call = request_with_retry world client (codes "GET") (codes "sites") none none [] in
    Success world (request_of client (codes "GET") (with_query none sites_url) none) call.0 call.1
request_with_retry_succeeds_example =
    request_with_retry_succeeds world client 2 1 (codes "GET") (codes "sites") none none sites_url
      [] recovers (omega arith) refl refl found

-- The loop over GET requests of "sites".
abbrev once : M Str
once = raw_request world client (codes "GET") (codes "sites") none none

retry_loop_enough_example :
    retry_loop world client once (rounds_of (pos 2) + 5) 0 none []
    ≡ retry_loop world client once (rounds_of (pos 2)) 0 none []
retry_loop_enough_example = retry_loop_enough world client once 2 5 [] refl
