-- ===== src/Tests/Clients.antt =====
-- NewClient, the errors and the queries.
use mathlib.Core.List.{Permᴰ}
use firezone_go.Prelude.{
  arith, ◌≤◌, ◌<◌, true, false, List, [], ◌∷◌, none, some, Str, codes, str_eq, if◌then◌else◌, map,
  ◌≡◌, ◌≢◌, ◌⊎◌, refl,
}
use firezone_go.Prelude.Int.{pos, negsuc}
use firezone_go.Client.{
  Client, apply_options, with_retry, with_user_agent, new_client, fresh_client,
}
use firezone_go.Client.Options.{
  Setting, user_agent, retry, option_of, IsBaseUrl, IsConfigured, new_client-IsConfigured,
}
use firezone_go.Errors.{ApiError, GoError, errorf, api, Result, ok, err}
use firezone_go.Errors.Message.{error_text, error_text-Perm, FieldErrors}
use firezone_go.Go.Strconv.{itoa}
use firezone_go.Go.Json.{str}
use firezone_go.Go.Json.Decode.{dec_string}
use firezone_go.Go.Url.{Url}
use firezone_go.Go.Values.{Values, lookup}
use firezone_go.Groups.{group_query}
use firezone_go.Groups.Query.{lookup-group_query, group_filters}
use firezone_go.Groups.Types.{GroupListOptions}
use firezone_go.Http.{replied, read_reply, request_of, with_query}
use firezone_go.Http.Status.{read_reply-TellsStatus, TellsStatus}
use firezone_go.Null.{Null, marshal_null, unmarshal_null}
use firezone_go.Null.RoundTrip.{unmarshal_null-marshal_null}
use firezone_go.Query.{ListOptions, filter_query}
use firezone_go.Query.Encode.{IsText, parse_query}
use firezone_go.Query.Served.{filter_query_served}
use firezone_go.Query.Lookup.{lookup-filter_query, filter_value, page_value, or_else}
use firezone_go.Tests.Data.{base, client, limited}

abbrev parse_url : Str → Result Url
parse_url s = ok base

abbrev settings : List Setting
settings = user_agent (codes "cli") ∷ retry true (pos 3) ∷ []

abbrev configured : Client
configured = record (fresh_client (codes "go1.22") base (codes "t")) {
  user_agent = codes "cli";
  max_retries = pos 3;
}

constructed :
    new_client parse_url
      (codes "go1.22")
      (codes "https://api.example.com/v1/")
      (codes "t")
      (map option_of settings)
    ≡ ok configured
unfolding new_client with_retry with_user_agent
constructed = refl

new_client-IsConfigured_example :
    (u : Url) × (parse_url (codes "https://api.example.com/v1/") ≡ ok u)
    × IsBaseUrl u
    × IsConfigured u (codes "t") configured
new_client-IsConfigured_example =
    new_client-IsConfigured parse_url (codes "go1.22") (codes "https://api.example.com/v1/")
      (codes "t") settings configured constructed

abbrev negative_budget : GoError
negative_budget =
    errorf (codes "firezone: WithRetry was given a negative retry budget (%d)")
      (itoa (negsuc 0) ∷ [])

first_fits : apply_options (with_user_agent (codes "tests") ∷ []) client ≡ ok client
unfolding apply_options with_user_agent
first_fits = refl

refuses : with_retry true (negsuc 0) client ≡ err negative_budget
unfolding with_retry
refuses = refl

abbrev two_fields : FieldErrors
two_fields = (codes "name", codes "is taken" ∷ []) ∷ (codes "address", codes "is bad" ∷ []) ∷ []

abbrev two_fields_swapped : FieldErrors
two_fields_swapped =
    (codes "address", codes "is bad" ∷ []) ∷ (codes "name", codes "is taken" ∷ []) ∷ []

abbrev unprocessable : ApiError
unprocessable = record {
  status_code = 422;
  kind = [];
  title = codes "Unprocessable";
  detail = [];
  validation_errors = [];
  retry_after = pos 0;
}

error_text-Perm_example :
    error_text (record unprocessable { validation_errors = two_fields })
    ≡ error_text (record unprocessable { validation_errors = two_fields_swapped })
error_text-Perm_example =
    error_text-Perm unprocessable two_fields two_fields_swapped ((λ e. cc, tt), (tt, tt))
      ∣ Permᴰ.swap refl refl ∣₁

read_reply-TellsStatus_example :
    (200 ≤ 429 → 429 < 300 → read_reply (replied limited) ≡ ok limited.body)
    × ((429 < 200) ⊎ (300 ≤ 429)
        → (a : ApiError) × (read_reply (replied limited) ≡ err (api a))
          × TellsStatus (api a) 429
          × (limited.status_code ≢ 429 → a.retry_after ≡ pos 0))
read_reply-TellsStatus_example = read_reply-TellsStatus limited

abbrev page : ListOptions
page = record { limit = pos 50; page_cursor = [] }

lookup-filter_query_example :
    lookup (codes "name") (filter_query page ((codes "name", codes "prod") ∷ []))
    ≡ or_else
        (filter_value ((codes "name", codes "prod") ∷ []) (codes "name"))
        (page_value page (codes "name"))
lookup-filter_query_example =
    lookup-filter_query page ((codes "name", codes "prod") ∷ []) (codes "name")

abbrev unsynced : GroupListOptions
unsynced = record {
  list_options = page;
  name = [];
  directory_id = some [];
  entity_type = codes "group";
}

lookup-group_query_example : lookup (codes "directory_id") (group_query (some unsynced)) ≡ (
    if str_eq (codes "directory_id") (codes "directory_id")
    then some []
    else or_else
        (filter_value (group_filters unsynced) (codes "directory_id"))
        (page_value page (codes "directory_id")))
lookup-group_query_example = lookup-group_query unsynced (codes "directory_id")

abbrev described : Null Str
described = record { value = codes "d"; valid = true }

abbrev cleared : Null Str
cleared = record { value = []; valid = false }

reads_back : dec_string (str (codes "d")) [] ≡ some (codes "d")
unfolding dec_string
reads_back = refl

unmarshal_null-marshal_null_example :
    unmarshal_null dec_string [] (marshal_null str described) cleared ≡ some described
unmarshal_null-marshal_null_example =
    unmarshal_null-marshal_null str dec_string [] described cleared (λ e. cc) reads_back

abbrev odd_filters : List (Str × Str)
odd_filters = (codes "name", codes "a&b=c d/%") ∷ []

odd_filters-IsText : IsText odd_filters
odd_filters-IsText = ground arith

filter_query_served_example :
    let request =
      request_of client
        (codes "GET")
        (with_query (some (filter_query page odd_filters)) base)
        none in
    (seen : Values) × (parse_query request.url.raw_query ≡ some seen)
    × ((k : Str) → lookup k seen ≡ or_else (filter_value odd_filters k) (page_value page k))
filter_query_served_example =
    filter_query_served client (codes "GET") base page odd_filters tt odd_filters-IsText
