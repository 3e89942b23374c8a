-- ===== src/Testutil.antt =====
-- internal/testutil/testutil.go: the client of the tests, and the responses that its server gives.
-- The server is an argument: the URL that it is reached at.
pub mod Entries
pub mod Once
pub mod Responses
pub mod Served
pub mod Validation
pub mod Writer
use firezone_go.Prelude.{
  ℕ, Bool, true, false, List, [], ◌∷◌, ◌++◌, Option, none, some, Str, codes, if◌then◌else◌, map,
  ◌≡◌, refl, ◌||◌, ◌&&◌, not, ltb, ◌==◌, option_map,
}
use firezone_go.Prelude.Int.{ℤ, pos}
use firezone_go.Client.{Client, ClientOption, new_client, with_retry}
use firezone_go.Errors.{Result}
use firezone_go.Errors.Api.{Response}
use firezone_go.Go.Json.{Json, null, num, str, obj, fields}
use firezone_go.Go.Json.Encode.{nil_array}
use firezone_go.Go.Json.Print.{print}
use firezone_go.Go.Sort.{str_leb}
use firezone_go.Go.StatusText.{status_text}
use firezone_go.Go.Strconv.{itoa}
use firezone_go.Go.Url.{Url}

-- Retries stay disabled unless one of the other options enables them.
unfoldable pub new_client_with_options :
    (Str → Result Url) → Str → Str → List ClientOption → Result Client
unfolding new_client
new_client_with_options parse_url go_version server_url opts =
    new_client parse_url go_version server_url (codes "test-token")
      (with_retry false (pos 0) ∷ opts)

unfoldable pub new_test_client : (Str → Result Url) → Str → Str → Result Client
unfolding new_client_with_options
new_test_client parse_url go_version server_url =
    new_client_with_options parse_url go_version server_url []

-- What a handler has written, as net/http's server keeps it: of the headers, the two that these
-- handlers set, and no status before one is written.
pub record ResponseWriter : Type 0 where
  pub content_type : Str
  pub retry_after : Str
  pub status_code : Option ℕ
  pub body : Str

abbrev pub fresh_writer : ResponseWriter
fresh_writer = record { content_type = []; retry_after = []; status_code = none; body = [] }

-- `none` is a panic, after which nothing is sent.
abbrev pub Handler : Type 0
Handler = ResponseWriter → Option ResponseWriter

-- `WriteHeader`: the first status counts, a status that is not of three digits panics, and one from
-- 100 to 199 but 101 is sent ahead of the response, whose status is still to be written.
unfoldable pub write_header : ℕ → Handler
write_header status w = elim w.status_code [
  | some written ↦ some w
  | none ↦
      if ltb status 100 || ltb 999 status
      then none
      else if ltb status 200 && not (status == 101)
      then some w
      else some (record w { status_code = some status })
]

-- The status of a response if none is written.
abbrev pub status_or_ok : Option ℕ → ℕ
status_or_ok none = 200
status_or_ok (some status) = status

unfoldable pub takes_body : ℕ → Bool
takes_body status = not (ltb status 200 || (status == 204 || status == 304))

-- `Write` of a text that is not empty: the status is 200 if none is written. `none` is an error, for a
-- status without a body.
unfoldable pub write : Str → Handler
unfolding takes_body
write text w =
    let status = status_or_ok w.status_code in
    if takes_body status
    then some (record w { status_code = some status; body = w.body ++ text })
    else none

abbrev pub response_of : ResponseWriter → Response
response_of w = record {
  status_code = status_or_ok w.status_code;
  retry_after = w.retry_after;
  body = w.body;
}

-- What the client receives from a handler.
abbrev pub received : Handler → Option Response
received h = option_map response_of (h fresh_writer)

-- An Encoder writes a map by its keys in order.
unfoldable pub insert_entry {ℓ} : {A : Type ℓ} → Str × A → List (Str × A) → List (Str × A)
unfolding str_leb
insert_entry e [] = e ∷ []
insert_entry e (f ∷ m) = if str_leb e.0 f.0 then e ∷ f ∷ m else f ∷ insert_entry e m

unfoldable pub sort_entries {ℓ} : {A : Type ℓ} → List (Str × A) → List (Str × A)
unfolding insert_entry
sort_entries [] = []
sort_entries (e ∷ m) = insert_entry e (sort_entries m)

unfoldable pub map_json : List (Str × Json) → Json
unfolding sort_entries
map_json m = obj (fields (sort_entries m))

-- The text that an Encoder writes ends in a newline; that it cannot be written is a panic. A negative
-- status, which panics as well, is left out.
unfoldable pub json_response : ℕ → Json → Handler
unfolding print write_header write
json_response status v w =
    elim (write_header status (record w { content_type = codes "application/json" })) [
      | none ↦ none
      | some begun ↦ write (print v ++ codes "\n") begun
    ]

unfoldable pub problem_response : ℕ → Str → Handler
unfolding json_response map_json status_text itoa
problem_response status detail = json_response status (
    map_json (
      (codes "type", str (codes "about:blank"))
      ∷ (codes "title", str (status_text status))
      ∷ (codes "status", num (itoa (pos status)))
      ∷ (codes "detail", str detail)
      ∷ []))

-- A `map[string][]string`, of which the map and every slice may be nil.
abbrev pub FieldMessages : Type 0
FieldMessages = Option (List (Str × Option (List Str)))

unfoldable pub field_messages_json : FieldMessages → Json
unfolding map_json
field_messages_json none = null
field_messages_json (some m) = map_json (map (λ e. (e.0, nil_array str e.1)) m)

unfoldable pub validation_error_response : FieldMessages → Handler
unfolding json_response map_json field_messages_json status_text
validation_error_response messages = json_response 422 (
    map_json (
      (codes "type", str (codes "about:blank"))
      ∷ (codes "title", str (status_text 422))
      ∷ (codes "status", num (codes "422"))
      ∷ (codes "detail", str (codes "The request body failed validation."))
      ∷ (codes "validation_errors", field_messages_json messages)
      ∷ []))

unfoldable pub rate_limited_response : ℤ → Handler
unfolding problem_response itoa
rate_limited_response seconds w =
    problem_response 429 (codes "Rate limit exceeded.") (record w { retry_after = itoa seconds })

conflict :
    received (problem_response 409 (codes "Taken."))
    ≡ some (record {
      status_code = 409;
      retry_after = [];
      body =
          codes
            "{\"detail\":\"Taken.\",\"status\":409,\"title\":\"Conflict\",\"type\":\"about:blank\"}\n";
    })
unfolding problem_response
conflict = refl

-- A status that is not one of a response, one without a body, and one that is sent ahead.
odd_statuses :
    (received (json_response 99 null) ≡ none)
    × (received (json_response 1000 null) ≡ none)
    × (received (json_response 304 null) ≡ none)
    × (received (json_response 103 null)
        ≡ some (record { status_code = 200; retry_after = []; body = codes "null\n" }))
unfolding json_response
odd_statuses = (refl, refl, refl, refl)
