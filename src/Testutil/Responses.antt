-- ===== src/Testutil/Responses.antt =====
-- That the client reads the error responses of internal/testutil/testutil.go as they are meant.
use firezone_go.Prelude.{
  ℕ, ◌≤◌, ◌≢◌, ◌*◌, true, false, [], ◌++◌, some, Str, codes, str_eq, Bool-cases, inl, inr, ◌≡◌,
  refl, ap, arith, ◌==◌, if◌then◌else◌,
}
use firezone_go.Prelude.Int.{pos, max_int64}
use firezone_go.Errors.{ApiError, api, is_rate_limited}
use firezone_go.Errors.Api.{
  Response, ProblemDetailsBody, no_details, details_fields, parse_details, parse_api_error, second,
}
use firezone_go.Errors.RetryAfter.{parse_retry_after-itoa}
use firezone_go.Go.Json.{num, str, obj, Fields, end, field}
use firezone_go.Go.Json.Decode.{unmarshal, dec_struct, get_field, key_matches, dec_string}
use firezone_go.Go.Json.Ints.{itoa-is_number, dec_int-itoa}
use firezone_go.Go.Json.Print.{print}
use firezone_go.Go.Json.RoundTrip.{IsAscii, IsText, AreFields, parse-print_line}
use firezone_go.Go.StatusText.{status_text, status_text-ascii}
use firezone_go.Go.Strconv.{itoa}
use firezone_go.Testutil.{received, problem_response, rate_limited_response}
use firezone_go.Testutil.Writer.{written, json_response_lem}

-- The problem details that are read from the line of an object.
pub parse_details-line :
    (fs : Fields) (p : ProblemDetailsBody)
    → AreFields fs
    → details_fields fs no_details ≡ some p
    → parse_details (print (obj fs) ++ codes "\n") ≡ some p
unfolding parse_details unmarshal dec_struct
parse_details-line fs p h decodes = rw (parse-print_line fs h) decodes

-- A title that is left out is the reason phrase, which is the title that is sent.
title_of : (s : Str) → (if str_eq s (codes "") then s else s) ≡ s
title_of s = elim (Bool-cases (str_eq s (codes ""))) [ inl e ↦ rw e refl | inr e ↦ rw e refl ]

abbrev pub problem : ℕ → Str → Fields
problem status detail = field (codes "detail") (str detail) (
    field (codes "status") (num (itoa (pos status))) (
      field (codes "title") (str (status_text status))
        (field (codes "type") (str (codes "about:blank")) end)))

problem-AreFields : (status : ℕ) (detail : Str) → IsAscii detail → AreFields (problem status detail)
unfolding IsText
problem-AreFields status detail h = (
  ground arith,
  (
    h,
    (
      ground arith,
      (
        itoa-is_number status,
        (ground arith, (status_text-ascii status, (ground arith, (ground arith, tt)))),
      ),
    ),
  ),
)

details_of-problem :
    (status : ℕ) (detail : Str)
    → status ≤ max_int64
    → details_fields (problem status detail) no_details
      ≡ some (record {
        kind = codes "about:blank";
        title = status_text status;
        status = pos status;
        detail = detail;
        validation_errors = [];
      })
unfolding details_fields get_field key_matches dec_string
details_of-problem status detail h = rw (dec_int-itoa status (pos 0) h) refl

-- What the client makes of a problem, before it looks at the status.
parse_details-problem :
    (status : ℕ) (detail : Str)
    → status ≤ max_int64
    → IsAscii detail
    → parse_details (print (obj (problem status detail)) ++ codes "\n")
      ≡ some (record {
        kind = codes "about:blank";
        title = status_text status;
        status = pos status;
        detail = detail;
        validation_errors = [];
      })
parse_details-problem status detail fits ascii =
    parse_details-line (problem status detail) _ (problem-AreFields status detail ascii)
      (details_of-problem status detail fits)

-- What the client makes of it: an APIError with that status and detail, the type "about:blank" and
-- the status's reason phrase as its title.
abbrev pub problem_as : ℕ → Str → ApiError
problem_as status detail = record {
  status_code = status;
  kind = codes "about:blank";
  title = status_text status;
  detail = detail;
  validation_errors = [];
  retry_after = pos 0;
}

-- What is sent for a problem.
abbrev pub problem_sent : ℕ → Str → Response
problem_sent status detail = written status [] (obj (problem status detail))

pub received_problem :
    (status : ℕ) (detail : Str)
    → 200 ≤ status
    → status ≤ 999
    → status ≢ 204
    → status ≢ 304
    → received (problem_response status detail) ≡ some (problem_sent status detail)
unfolding problem_response
received_problem status detail low high no_content not_modified =
    json_response_lem status [] (obj (problem status detail)) low high no_content not_modified

-- The client reads a problem of any status but 429 as an APIError with that status, the type
-- "about:blank", the status's reason phrase as its title and the given detail, without validation
-- errors and without a wait. The status is an int64 and the detail ASCII.
pub problem_sent_lem :
    (status : ℕ) (detail : Str)
    → status ≤ max_int64
    → IsAscii detail
    → status ≢ 429
    → parse_api_error (problem_sent status detail) ≡ problem_as status detail
unfolding parse_api_error
problem_sent_lem status detail fits ascii other =
    let not_429 : (status == 429) ≡ false = ground arith in
    rw (parse_details-problem status detail fits ascii, not_429, title_of (status_text status)) refl

abbrev pub limited_as : ℕ → ApiError
limited_as n = record {
  status_code = 429;
  kind = codes "about:blank";
  title = codes "Too Many Requests";
  detail = codes "Rate limit exceeded.";
  validation_errors = [];
  retry_after = pos (n * second);
}

abbrev limited_sent : ℕ → Response
limited_sent n = written 429 (itoa (pos n)) (obj (problem 429 (codes "Rate limit exceeded.")))

received_limit : (n : ℕ) → received (rate_limited_response (pos n)) ≡ some (limited_sent n)
unfolding rate_limited_response
received_limit n =
    json_response_lem 429 (itoa (pos n)) (obj (problem 429 (codes "Rate limit exceeded.")))
      (omega arith) (omega arith) (omega arith) (omega arith)

parsed_limit : (n : ℕ) → n ≤ 9223372036 → parse_api_error (limited_sent n) ≡ limited_as n
unfolding parse_api_error status_text
parsed_limit n h =
    let details =
      parse_details-problem 429 (codes "Rate limit exceeded.") (omega arith) (ground arith) in
    rw (details, parse_retry_after-itoa n h) refl

-- A rate limit response of `n` seconds is sent, and for an `n` of at most 9223372036 the client reads
-- it as an APIError of status 429, with the reason phrase and the text of a rate limit and a wait of
-- `n` seconds, which `IsRateLimited` tells.
pub rate_limited_response_lem :
    (n : ℕ)
    → n ≤ 9223372036
    → (resp : Response) × (received (rate_limited_response (pos n)) ≡ some resp)
      × (parse_api_error resp ≡ limited_as n)
      × (is_rate_limited (api (parse_api_error resp)) ≡ true)
unfolding is_rate_limited
rate_limited_response_lem n h = (
  limited_sent n,
  received_limit n,
  parsed_limit n h,
  ap (λ e. is_rate_limited (api e)) (parsed_limit n h),
)
