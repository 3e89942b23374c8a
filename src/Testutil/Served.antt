-- ===== src/Testutil/Served.antt =====
-- A call that the server of the tests answers by a problem.
use mathlib.Core.Option.{some-injective}
use firezone_go.Prelude.{ℕ, ◌≤◌, ◌≢◌, ◌∷◌, Option, some, Str, sym, arith, inr, ◌≡◌, ap, ◌∙◌}
use firezone_go.Calls.{do_into}
use firezone_go.Calls.Served.{do_into_refused}
use firezone_go.Client.{Client}
use firezone_go.Errors.{api, err}
use firezone_go.Errors.Api.{Response, parse_api_error}
use firezone_go.Go.Json.Decode.{Decoder}
use firezone_go.Go.Json.RoundTrip.{IsAscii}
use firezone_go.Go.Url.{Url}
use firezone_go.Go.Values.{Values}
use firezone_go.Http.{World, Log, RequestBody, sent, request_of, with_query}
use firezone_go.Retry.First.{Answered}
use firezone_go.Testutil.{received, problem_response}
use firezone_go.Testutil.Responses.{problem_sent, received_problem, problem_sent_lem, problem_as}

-- `ProblemResponse` with a status from 300 to 999, other than 304 and 429, and a detail of ASCII is
-- sent, and a call whose first request it answers fails after that one request by the APIError with
-- that status, the type "about:blank", the status's reason phrase as its title and that detail. The
-- path resolves, the request can be built and the budget is not negative.
pub problem_response_served :
    {A : Type 0} (w : World) (c : Client) (method request_path : Str) (query : Option Values)
    (body : RequestBody) (log : Log) (u : Url) (status : ℕ) (detail : Str) (resp : Response)
    (d : Decoder A) (zero : A)
    → received (problem_response status detail) ≡ some resp
    → Answered w c method request_path query body log u resp
    → 300 ≤ status
    → status ≤ 999
    → status ≢ 304
    → status ≢ 429
    → IsAscii detail
    → do_into w c method request_path query body d zero log ≡ (
      err (api (problem_as status detail)),
      sent (request_of c method (with_query query u) body) ∷ log,
    )
problem_response_served w c method request_path query body log u status detail resp d zero arrives
      answered low high not_modified other ascii =
    let same : resp ≡ problem_sent status detail =
      some-injective resp (problem_sent status detail) (
        sym arrives
        ∙ received_problem status detail (omega arith) high (omega arith) not_modified) in
    let told : parse_api_error resp ≡ problem_as status detail =
      ap parse_api_error same ∙ problem_sent_lem status detail (omega arith) ascii other in
    let code : resp.status_code ≡ status = ap (λ (r : Response). r.status_code) same in
    (do_into_refused w c method request_path query body log u resp answered d zero
      (inr (omega arith)) (omega arith)).0
    ∙ ap (λ e. (err (api e), sent (request_of c method (with_query query u) body) ∷ log)) told
