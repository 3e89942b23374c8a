-- ===== src/Errors/Api.antt =====
-- parseAPIError and parseRetryAfter of errors.go: what becomes of a response that is not a success.
use firezone_go.Prelude.{
  ℕ, ◌^◌, List, [], ◌∷◌, Option, none, some, Str, codes, str_eq, ◌==◌, if◌then◌else◌, ◌≡◌, refl,
}
use firezone_go.Prelude.Int.{ℤ, pos, ltb_ℤ, mul64, wrap64}
use firezone_go.Errors.{ApiError}
use firezone_go.Go.Json.{Fields}
use firezone_go.Go.Json.Decode.{
  ◌>>=◌, dec_string, dec_int, dec_list, dec_map, dec_struct, get_field, unmarshal,
}
use firezone_go.Go.StatusText.{status_text}
use firezone_go.Go.Strconv.{scan_int}

-- What the client reads of an `http.Response` whose body has been read.
pub record Response : Type 0 where
  pub status_code : ℕ
  pub retry_after : Str
  pub body : Str

pub record ProblemDetailsBody : Type 0 where
  pub kind : Str
  pub title : Str
  pub status : ℤ
  pub detail : Str
  pub validation_errors : List (Str × List Str)

abbrev pub no_details : ProblemDetailsBody
no_details = record { kind = []; title = []; status = pos 0; detail = []; validation_errors = [] }

unfoldable pub details_fields : Fields → ProblemDetailsBody → Option ProblemDetailsBody
unfolding get_field dec_string dec_int dec_map dec_list
details_fields fs p = do
  kind ← get_field (codes "type") dec_string fs p.kind
  title ← get_field (codes "title") dec_string fs p.title
  status ← get_field (codes "status") dec_int fs p.status
  detail ← get_field (codes "detail") dec_string fs p.detail
  errors ←
      get_field (codes "validation_errors") (dec_map (dec_list dec_string []) []) fs
        p.validation_errors
  some (record {
    kind = kind;
    title = title;
    status = status;
    detail = detail;
    validation_errors = errors;
  })

unfoldable pub parse_details : Str → Option ProblemDetailsBody
unfolding details_fields dec_struct unmarshal
parse_details = unmarshal (dec_struct details_fields) no_details

abbrev pub second : ℕ
second = 10 ^ 9

abbrev pub to_seconds : Option ℤ → ℤ
to_seconds none = pos 0
to_seconds (some seconds) = if ltb_ℤ seconds (pos 0) then pos 0 else mul64 seconds (pos second)

-- The product is computed in `time.Duration`, an int64 of nanoseconds.
unfoldable pub parse_retry_after : Str → ℤ
unfolding wrap64
parse_retry_after header = if str_eq header (codes "") then pos 0 else to_seconds (scan_int header)

abbrev pub with_details : Option ProblemDetailsBody → ApiError → ApiError
with_details none e = e
with_details (some p) e = record e {
  kind = p.kind;
  title = if str_eq p.title (codes "") then e.title else p.title;
  detail = p.detail;
  validation_errors = p.validation_errors;
}

abbrev pub bare_error : ℕ → ApiError
bare_error status = record {
  status_code = status;
  kind = [];
  title = status_text status;
  detail = [];
  validation_errors = [];
  retry_after = pos 0;
}

unfoldable pub parse_api_error : Response → ApiError
parse_api_error resp =
    let e : ApiError = with_details (parse_details resp.body) (bare_error resp.status_code) in
    if resp.status_code == 429
    then record e { retry_after = parse_retry_after resp.retry_after }
    else e

abbrev limited : Response
limited = record {
  status_code = 429;
  retry_after = codes "5";
  body = codes "{\"title\":\"Slow down\",\"validation_errors\":{\"a\":[\"b\"]}}";
}

parsed : parse_api_error limited ≡ record {
  status_code = 429;
  kind = [];
  title = codes "Slow down";
  detail = [];
  validation_errors = (codes "a", codes "b" ∷ []) ∷ [];
  retry_after = pos 5000000000;
}
unfolding parse_api_error parse_details status_text parse_retry_after scan_int
parsed = refl
