-- ===== src/Client.antt =====
-- The Client type, its options and NewClient, of firezone.go. The service fields of a Client all hold
-- the client itself, so the services are functions of it. `url.Parse` and `runtime.Version` are
-- arguments.
pub mod Options
use firezone_go.Prelude.{
  ℕ, ◌*◌, ◌^◌, Bool, true, false, ◌&&◌, ◌||◌, not, List, [], ◌∷◌, ◌++◌, Option, none, some, Str,
  codes, str_eq, if◌then◌else◌,
}
use firezone_go.Prelude.Int.{ℤ, pos, ltb_ℤ}
use firezone_go.Errors.{GoError, errorf, errorf_w, Result, ok, err}
use firezone_go.Errors.Api.{second}
use firezone_go.Go.Duration.{duration_string}
use firezone_go.Go.Strconv.{itoa}
use firezone_go.Go.Url.{Url}

-- An `*http.Client`, by what it is: the client's own, or one that the caller made.
pub data HttpClient : Type 0 where
  own : HttpClient
  supplied : ℕ → HttpClient

pub record Client : Type 0 where
  pub base_url : Url
  pub token : Str
  pub http_client : HttpClient
  pub user_agent : Str
  pub request_timeout : ℤ
  pub retry_enabled : Bool
  pub max_retries : ℤ
  pub retry_max_wait : ℤ

-- An `Option` changes the client that it is given; of a client left by an option that fails nothing
-- is seen.
abbrev pub ClientOption : Type 0
ClientOption = Client → Result Client

unfoldable pub with_http_client : Option HttpClient → ClientOption
with_http_client none c =
    err (errorf (codes "firezone: WithHTTPClient was given a nil *http.Client") [])
with_http_client (some hc) c = ok (record c { http_client = hc })

unfoldable pub with_user_agent : Str → ClientOption
with_user_agent ua c =
    if str_eq ua (codes "")
    then err (
        errorf
          (codes
            "firezone: WithUserAgent was given an empty string; omit the option to keep the default")
          [])
    else ok (record c { user_agent = ua })

abbrev pub default_request_timeout : ℕ
default_request_timeout = 30 * second

unfoldable pub with_request_timeout : ℤ → ClientOption
unfolding duration_string
with_request_timeout d c =
    if ltb_ℤ d (pos 0)
    then err (
        errorf (codes "firezone: WithRequestTimeout was given a negative duration (%s)")
          (duration_string d ∷ []))
    else ok (record c { request_timeout = d })

abbrev pub default_max_retries : ℕ
default_max_retries = 10

unfoldable pub with_retry : Bool → ℤ → ClientOption
with_retry enabled max_retries c =
    if ltb_ℤ max_retries (pos 0)
    then err (
        errorf (codes "firezone: WithRetry was given a negative retry budget (%d)")
          (itoa max_retries ∷ []))
    else ok (record c { retry_enabled = enabled; max_retries = max_retries })

unfoldable pub with_retry_max_wait : ℤ → ClientOption
with_retry_max_wait d c = ok (record c { retry_max_wait = d })

-- `none` is a nil error.
unfoldable pub check_base_url : Str → Url → Option GoError
check_base_url raw u =
    if not (str_eq u.scheme (codes "http")) && not (str_eq u.scheme (codes "https"))
    then some (
        errorf (codes "firezone: invalid base URL %q: scheme must be http or https, got %q")
          (raw ∷ u.scheme ∷ []))
    else if str_eq u.host (codes "")
    then some (errorf (codes "firezone: invalid base URL %q: missing host") (raw ∷ []))
    else if not (str_eq u.raw_query (codes "")) || u.force_query
    then some
        (errorf (codes "firezone: invalid base URL %q: must not include a query string") (raw ∷ []))
    else if not (str_eq u.fragment (codes ""))
    then some
        (errorf (codes "firezone: invalid base URL %q: must not include a fragment") (raw ∷ []))
    else none

abbrev pub version : Str
version = codes "0.1.0"

abbrev pub default_user_agent : Str → Str
default_user_agent go_version =
    codes "firezone-go-client/" ++ (version ++ (codes " (" ++ (go_version ++ codes ")")))

abbrev pub fresh_client : Str → Url → Str → Client
fresh_client go_version parsed token = record {
  base_url = parsed;
  token = token;
  http_client = own;
  user_agent = default_user_agent go_version;
  request_timeout = pos default_request_timeout;
  retry_enabled = true;
  max_retries = pos default_max_retries;
  retry_max_wait = pos 0;
}

-- The loop over the options.
unfoldable pub apply_options : List ClientOption → Client → Result Client
apply_options [] c = ok c
apply_options (o ∷ os) c = elim (o c) [ err e ↦ err e | ok c' ↦ apply_options os c' ]

unfoldable pub new_client : (Str → Result Url) → Str → Str → Str → List ClientOption → Result Client
unfolding check_base_url apply_options
new_client parse_url go_version base_url token opts = elim (parse_url base_url) [
  | err e ↦ err (errorf_w (codes "firezone: invalid base URL %q: %w") (base_url ∷ []) e)
  | ok parsed ↦ elim (check_base_url base_url parsed) [
    | some e ↦ err e
    | none ↦ apply_options opts (fresh_client go_version parsed token)
  ]
]
