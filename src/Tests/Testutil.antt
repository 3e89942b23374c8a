-- ===== src/Tests/Testutil.antt =====
-- The test helpers of internal/testutil/testutil.go, and the client of the tests.
use firezone_go.Prelude.{
  true, false, List, [], ◌∷◌, none, some, Str, codes, ◌≡◌, refl, arith, All, map,
}
use firezone_go.Prelude.Int.{pos}
use firezone_go.Calls.{do_into}
use firezone_go.Client.{Client, with_retry, with_user_agent, fresh_client}
use firezone_go.Client.Options.{Setting, user_agent, option_of}
use firezone_go.Errors.{Result, api, ok, err, is_rate_limited, is_validation}
use firezone_go.Errors.Api.{parse_api_error, Response}
use firezone_go.Errors.Message.{error_text}
use firezone_go.Go.Json.Decode.{dec_string}
use firezone_go.Go.Url.{Url}
use firezone_go.Http.{World, sent, replied, request_of, raw_request}
use firezone_go.Retry.{request_with_retry}
use firezone_go.Retry.First.{Answered}
use firezone_go.Tests.Data.{base, client, world, sites_url, found}
use firezone_go.Testutil.{
  new_client_with_options, received, rate_limited_response, validation_error_response, sort_entries,
}
use firezone_go.Testutil.Once.{new_client_with_options_once}
use firezone_go.Testutil.Responses.{
  limited_as, rate_limited_response_lem, problem_as, problem_sent, received_problem,
}
use firezone_go.Testutil.Served.{problem_response_served}
use firezone_go.Testutil.Validation.{
  Entries, IsAsciiEntry, errors_of, invalid_as, validation_error_response_lem,
}

abbrev parse_url : Str → Result Url
parse_url s = ok base

abbrev settings : List Setting
settings = user_agent (codes "suite") ∷ []

abbrev test_client : Client
test_client = record (fresh_client (codes "go1.22") base (codes "test-token")) {
  user_agent = codes "suite";
  retry_enabled = false;
  max_retries = pos 0;
}

test_client_built :
    new_client_with_options parse_url
      (codes "go1.22")
      (codes "http://127.0.0.1:8080")
      (map option_of settings)
    ≡ ok test_client
unfolding new_client_with_options with_retry with_user_agent
test_client_built = refl

new_client_with_options_once_example :
    request_with_retry world test_client (codes "GET") (codes "sites") none none []
    ≡ raw_request world test_client (codes "GET") (codes "sites") none none []
new_client_with_options_once_example =
    new_client_with_options_once parse_url (codes "go1.22") (codes "http://127.0.0.1:8080") settings
      test_client world (codes "GET") (codes "sites") none none [] (refl, tt) test_client_built

rate_limited_response_lem_example :
    (resp : Response) × (received (rate_limited_response (pos 7)) ≡ some resp)
    × (parse_api_error resp ≡ limited_as 7)
    × (is_rate_limited (api (parse_api_error resp)) ≡ true)
rate_limited_response_lem_example = rate_limited_response_lem 7 (omega arith)

abbrev gone : Response
gone = problem_sent 410 (codes "It is gone.")

abbrev lacking : World
lacking = record world { reply = λ log req. replied gone }

gone-Answered : Answered lacking client (codes "GET") (codes "sites") none none [] sites_url gone
gone-Answered = record {
  retries = 2;
  budget = refl;
  resolves = found;
  accepts = refl;
  replies = refl;
}

problem_response_served_example :
    do_into lacking client (codes "GET") (codes "sites") none none dec_string [] [] ≡ (
      err (api (problem_as 410 (codes "It is gone."))),
      sent (request_of client (codes "GET") sites_url none) ∷ [],
    )
problem_response_served_example =
    problem_response_served lacking client (codes "GET") (codes "sites") none none [] sites_url 410
      (codes "It is gone.") gone dec_string []
      (received_problem 410 (codes "It is gone.") (omega arith) (omega arith) (omega arith)
        (omega arith))
      gone-Answered (omega arith) (omega arith) (omega arith) (omega arith) (ground arith)

abbrev faults : Entries
faults = (codes "name", some (codes "is too long" ∷ [])) ∷ (codes "email", none) ∷ []

faults-IsAscii : All IsAsciiEntry faults
faults-IsAscii = ground arith

validation_error_response_lem_example :
    (resp : Response) × (received (validation_error_response (some faults)) ≡ some resp)
    × (parse_api_error resp ≡ invalid_as (sort_entries (errors_of faults)))
    × (is_validation (api (parse_api_error resp)) ≡ true)
    × (error_text (parse_api_error resp) ≡ error_text (invalid_as (errors_of faults)))
validation_error_response_lem_example =
    validation_error_response_lem faults faults-IsAscii (((λ e. cc), tt), (tt, tt))
