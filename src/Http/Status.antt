-- ===== src/Http/Status.antt =====
-- What the caller can tell of a response: its status decides between success and the error tests.
use firezone_go.Prelude.{
  ℕ, ◌≤◌, ◌<◌, Option, none, some, ◌==◌, ◌≡◌, ◌≢◌, refl, ◌⊎◌, inl, inr, arith, Bool-cases, ==_iff,
}
use firezone_go.Prelude.Int.{pos}
use firezone_go.Errors.{
  GoError, api, ApiError, ok, err, has_status, as_api_error, is_not_found, is_conflict,
  is_validation, is_rate_limited, is_forbidden, is_unauthorized,
}
use firezone_go.Errors.Api.{
  Response, parse_api_error, parse_details, with_details, bare_error, ProblemDetailsBody,
}
use firezone_go.Http.{replied, read_reply}

with_details-status_code :
    (p : Option ProblemDetailsBody) (e : ApiError) → (with_details p e).status_code ≡ e.status_code
with_details-status_code none e = refl
with_details-status_code (some p) e = refl

with_details-retry_after :
    (p : Option ProblemDetailsBody) (e : ApiError) → (with_details p e).retry_after ≡ e.retry_after
with_details-retry_after none e = refl
with_details-retry_after (some p) e = refl

parse_api_error-status_code :
    (resp : Response) → (parse_api_error resp).status_code ≡ resp.status_code
unfolding parse_api_error
parse_api_error-status_code resp = elim (Bool-cases (resp.status_code == 429)) [
  | inl e ↦ rw e (with_details-status_code (parse_details resp.body) (bare_error resp.status_code))
  | inr e ↦ rw e (with_details-status_code (parse_details resp.body) (bare_error resp.status_code))
]

-- Only an error of status 429 carries a wait.
parse_api_error-retry_after :
    (resp : Response) → resp.status_code ≢ 429 → (parse_api_error resp).retry_after ≡ pos 0
unfolding parse_api_error
parse_api_error-retry_after resp other = elim (Bool-cases (resp.status_code == 429)) [
  | inl e ↦ absurd (other ((==_iff resp.status_code 429).0 e))
  | inr e ↦ rw e (with_details-retry_after (parse_details resp.body) (bare_error resp.status_code))
]

-- The error tests, as far as they tell the error of a response of status `s`.
abbrev pub TellsStatus : GoError → ℕ → Type 0
TellsStatus e s =
    (is_unauthorized e ≡ s == 401)
    × (is_forbidden e ≡ s == 403)
    × (is_not_found e ≡ s == 404)
    × (is_conflict e ≡ s == 409)
    × (is_validation e ≡ s == 422)
    × (is_rate_limited e ≡ s == 429)

pub parse_api_error-TellsStatus :
    (resp : Response) → TellsStatus (api (parse_api_error resp)) resp.status_code
unfolding is_unauthorized is_forbidden is_not_found is_conflict is_validation is_rate_limited
    has_status as_api_error
parse_api_error-TellsStatus resp =
    simp (parse_api_error-status_code resp) (refl, refl, refl, refl, refl, refl)

pub read_reply_outside :
    (resp : Response)
    → (resp.status_code < 200) ⊎ (300 ≤ resp.status_code)
    → read_reply (replied resp) ≡ err (api (parse_api_error resp))
unfolding read_reply
read_reply_outside resp (inl low) = ground arith
read_reply_outside resp (inr high) = ground arith

-- A response of status 200 to 299 gives its body. Any other gives an API error, whatever its body
-- holds: each of the error tests tells its own status, and the error carries a wait only if the
-- status is 429.
pub read_reply-TellsStatus :
    (resp : Response)
    → (200 ≤ resp.status_code → resp.status_code < 300 → read_reply (replied resp) ≡ ok resp.body)
      × ((resp.status_code < 200) ⊎ (300 ≤ resp.status_code)
          → (a : ApiError) × (read_reply (replied resp) ≡ err (api a))
            × TellsStatus (api a) resp.status_code
            × (resp.status_code ≢ 429 → a.retry_after ≡ pos 0))
unfolding read_reply
read_reply-TellsStatus resp = (
  λ low high. ground arith,
  λ outside. (
    parse_api_error resp,
    read_reply_outside resp outside,
    parse_api_error-TellsStatus resp,
    parse_api_error-retry_after resp,
  ),
)
