-- ===== src/Http.antt =====
-- One HTTP round trip: `rawRequest` of firezone.go, in a world of which the client sees replies, the
-- end of its context and random numbers. Each is a function of what has happened so far, so it may
-- change with every request.
pub mod Status
use firezone_go.Prelude.{
  ℕ, Bool, true, false, ◌||◌, List, [], ◌∷◌, ◌++◌, Option, none, some, Str, codes, ltb, leb,
  if◌then◌else◌,
}
use firezone_go.Prelude.Int.{ℤ, pos, ltb_ℤ}
use firezone_go.Client.{HttpClient, Client}
use firezone_go.Errors.{GoError, errorf_w, external, api, Result, ok, err}
use firezone_go.Errors.Api.{Response, parse_api_error}
use firezone_go.Go.Url.{Url}
use firezone_go.Go.Values.{Values, encode}
use firezone_go.Path.{resolve_path}

-- `requestBody`: `none` is nil, which sends no body.
abbrev pub RequestBody : Type 0
RequestBody = Option Str

-- What is handed to `http.Client.Do`; `timeout` bounds the attempt, `none` being no bound.
pub record Request : Type 0 where
  pub client : HttpClient
  pub method : Str
  pub url : Url
  pub authorization : Str
  pub accept : Str
  pub user_agent : Str
  pub content_type : Option Str
  pub body : RequestBody
  pub timeout : Option ℤ

-- `Do` fails, the body cannot be read, or there is a response.
pub data Reply : Type 0 where
  no_response : Str → Reply
  broken_body : Str → Reply
  replied : Response → Reply

pub data Event : Type 0 where
  sent : Request → Event
  waited : ℤ → Event

-- What has happened, the latest first.
abbrev pub Log : Type 0
Log = List Event

pub record World : Type 0 where
  -- The error of `http.NewRequestWithContext`, if it refuses a request.
  pub refusal : Request → Option Str
  pub reply : Log → Request → Reply
  -- `ctx.Err()`, if the context is done before a wait is over.
  pub ctx_done : Log → ℤ → Option Str
  -- `rand.Int64N(n)`.
  pub random : Log → ℕ → ℕ

abbrev pub M : Type 0 → Type 0
M A = Log → Result A × Log

-- `if err != nil { return nil, err }` behind each step.
abbrev pub then_with {ℓ} : {A : Type ℓ} {B : Type 0} → (A → M B) → Result A → M B
then_with f (ok a) log = f a log
then_with f (err e) log = (err e, log)

infixl 5 ◌>>=◌
abbrev pub ◌>>=◌ : {A B : Type 0} → M A → (A → M B) → M B
◌>>=◌ m f log = then_with f (m log).0 (m log).1

abbrev pub fail : {A : Type 0} → GoError → M A
fail e log = (err e, log)

abbrev pub pure : {A : Type 0} → A → M A
pure a log = (ok a, log)

abbrev pub lift : {A : Type 0} → Result A → M A
lift r log = (r, log)

-- A nil query leaves the URL's own alone.
abbrev pub with_query : Option Values → Url → Url
with_query none u = u
with_query (some q) u = record u { raw_query = encode q }

abbrev pub content_type_of : RequestBody → Option Str
content_type_of none = none
content_type_of (some _) = some (codes "application/json")

unfoldable pub request_of : Client → Str → Url → RequestBody → Request
request_of c method u body = record {
  client = c.http_client;
  method = method;
  url = u;
  authorization = codes "Bearer " ++ c.token;
  accept = codes "application/json";
  user_agent = c.user_agent;
  content_type = content_type_of body;
  body = body;
  timeout = if ltb_ℤ (pos 0) c.request_timeout then some c.request_timeout else none;
}

unfoldable pub read_reply : Reply → Result Str
read_reply (no_response s) =
    err (errorf_w (codes "firezone: performing request: %w") [] (external s))
read_reply (broken_body s) =
    err (errorf_w (codes "firezone: reading response body: %w") [] (external s))
read_reply (replied resp) =
    if ltb resp.status_code 200 || leb 300 resp.status_code
    then err (api (parse_api_error resp))
    else ok resp.body

module _ (w : World) where
  unfoldable pub send : Request → M Str
  unfolding read_reply
  send req log = elim (w.refusal req) [
    | some s ↦ (err (errorf_w (codes "firezone: building request: %w") [] (external s)), log)
    | none ↦ (read_reply (w.reply log req), sent req ∷ log)
  ]

  unfoldable pub raw_request : Client → Str → Str → Option Values → RequestBody → M Str
  unfolding send request_of
  raw_request c method request_path query body = do
    u ← lift (resolve_path c.base_url request_path)
    send (request_of c method (with_query query u) body)
