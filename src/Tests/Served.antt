-- ===== src/Tests/Served.antt =====
-- Calls of which the first request is answered, and what they decode.
use firezone_go.Prelude.{[], ◌∷◌, none, some, Str, codes, ◌≡◌, refl, arith, All}
use firezone_go.Prelude.Int.{pos}
use firezone_go.Calls.{wrap_body, do_into, do_list}
use firezone_go.Calls.Pages.{Listing, listing_json, IsListing, metadata_of, do_list_served}
use firezone_go.Calls.Served.{wrap_body_served, do_into_served}
use firezone_go.Errors.{ok}
use firezone_go.Errors.Api.{Response}
use firezone_go.Gateways.Types.{
  RotatedGatewayToken, rotated_gateway_token_fields, zero_rotated_gateway_token,
}
use firezone_go.Go.Json.{Json, str, obj, field, end, items}
use firezone_go.Go.Json.Decode.{dec_string, dec_struct, dec_items, unmarshal}
use firezone_go.Go.Json.Encode.{array}
use firezone_go.Go.Json.Parse.{parse}
use firezone_go.Go.Json.Print.{print}
use firezone_go.Go.Json.RoundTrip.{IsText}
use firezone_go.Http.{World, Log, waited, sent, replied, request_of, with_query}
use firezone_go.Policies.RoundTrip.{conditions_round_trip, IsAsciiCondition}
use firezone_go.Policies.Types.{Condition, condition_json, policy_fields, zero_policy}
use firezone_go.Query.{Page}
use firezone_go.Retry.First.{Answered}
use firezone_go.Tests.Data.{client, world, sites_url, found, token_response}

abbrev site : Json
site = obj (field (codes "name") (str (codes "a<b")) end)

site-IsText : IsText site
unfolding IsText
site-IsText = ground arith

wrap_body_served_example :
    (text : Str) × (wrap_body (codes "site") (some site) ≡ ok (some text))
    × (parse text ≡ some (obj (field (codes "site") site end)))
wrap_body_served_example = wrap_body_served (codes "site") site (ground arith) site-IsText

-- After the first event the server answers by a token.
abbrev later : Log
later = waited (pos 1) ∷ []

answered :
    Answered world client (codes "GET") (codes "sites") none none later sites_url token_response
answered = record { retries = 2; budget = refl; resolves = found; accepts = refl; replies = refl }

abbrev token_json : Json
token_json =
    obj (field (codes "id") (str (codes "t1")) (field (codes "token") (str (codes "s")) end))

token-IsText : IsText token_json
unfolding IsText
token-IsText = ground arith

token_body : token_response.body ≡ print (obj (field (codes "data") token_json end))
unfolding print
token_body = refl

abbrev token : RotatedGatewayToken
token = record { id = codes "t1"; token = codes "s" }

token_decodes :
    dec_struct rotated_gateway_token_fields token_json zero_rotated_gateway_token ≡ some token
unfolding dec_struct rotated_gateway_token_fields
token_decodes = refl

do_into_served_example :
    do_into world client
      (codes "GET")
      (codes "sites")
      none
      none
      (dec_struct rotated_gateway_token_fields)
      zero_rotated_gateway_token
      later
    ≡ (ok token, sent (request_of client (codes "GET") sites_url none) ∷ later)
do_into_served_example =
    do_into_served world client (codes "GET") (codes "sites") none none later sites_url
      token_response answered (dec_struct rotated_gateway_token_fields) zero_rotated_gateway_token
      token token_json (omega arith) (omega arith) token_body token-IsText token_decodes

abbrev not_found : Response
not_found = record { status_code = 404; retry_after = []; body = [] }

abbrev lacking : World
lacking = record world { reply = λ log req. replied not_found }

not_found-Answered :
    Answered lacking client (codes "GET") (codes "sites") none none [] sites_url not_found
not_found-Answered = record {
  retries = 2;
  budget = refl;
  resolves = found;
  accepts = refl;
  replies = refl;
}

abbrev listing : Listing
listing = record {
  items = items (str (codes "a") ∷ str (codes "b") ∷ []);
  count = 3;
  limit = 2;
  next_page = some (codes "n1");
  prev_page = none;
}

listing-IsListing : IsListing listing
unfolding IsText
listing-IsListing = record {
  texts = ground arith;
  count_fits = omega arith;
  limit_fits = omega arith;
  next_ascii = ground arith;
  prev_ascii = tt;
}

abbrev page_response : Response
page_response = record {
  status_code = 200;
  retry_after = [];
  body = print (obj (listing_json listing));
}

abbrev listed : World
listed = record world { reply = λ log req. replied page_response }

page-Answered :
    Answered listed client (codes "GET") (codes "sites") (some []) none [] sites_url page_response
page-Answered = record {
  retries = 2;
  budget = refl;
  resolves = found;
  accepts = refl;
  replies = refl;
}

strings_decode :
    dec_items dec_string [] (str (codes "a") ∷ str (codes "b") ∷ [])
    ≡ some (codes "a" ∷ codes "b" ∷ [])
unfolding dec_items dec_string
strings_decode = refl

abbrev page : Page Str
page = record { items = codes "a" ∷ codes "b" ∷ []; metadata = metadata_of listing }

do_list_served_example :
    do_list listed client (codes "GET") (codes "sites") [] dec_string [] []
    ≡ (ok page, sent (request_of client (codes "GET") (with_query (some []) sites_url) none) ∷ [])
do_list_served_example =
    do_list_served listed client (codes "GET") (codes "sites") [] [] sites_url page_response
      dec_string [] listing (codes "a" ∷ codes "b" ∷ []) page-Answered (omega arith) (omega arith)
      refl listing-IsListing strings_decode

abbrev verified : Condition
verified = record {
  property = codes "client_verified";
  operator = codes "is";
  values = some (codes "true" ∷ []);
}

verified-IsAscii : All IsAsciiCondition (verified ∷ [])
verified-IsAscii =
    (record { property = ground arith; operator = ground arith; values = ground arith }, tt)

conditions_round_trip_example :
    unmarshal
      (dec_struct policy_fields)
      zero_policy
      (print (obj (field (codes "conditions") (array condition_json (verified ∷ [])) end)))
    ≡ some (record zero_policy { conditions = verified ∷ [] })
conditions_round_trip_example = conditions_round_trip (verified ∷ []) verified-IsAscii
