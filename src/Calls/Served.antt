-- ===== src/Calls/Served.antt =====
-- A call whose first request is answered, from the encoding of its body to the decoded result.
use firezone_go.Prelude.{◌≤◌, ◌<◌, ◌∷◌, Option, none, some, Str, codes, ◌≡◌, ◌≢◌, ◌⊎◌, refl, arith}
use firezone_go.Calls.{wrap_body, data_envelope, decode_into, decode_data, do_into}
use firezone_go.Client.{Client}
use firezone_go.Errors.{api, ok, err}
use firezone_go.Go.Json.{Json, obj, Fields, end, field}
use firezone_go.Go.Json.Decode.{Decoder, dec_struct, dec_raw, get_field, key_matches, unmarshal}
use firezone_go.Go.Json.Parse.{parse}
use firezone_go.Go.Json.Print.{print}
use firezone_go.Go.Json.RoundTrip.{IsAscii, IsText, AreFields, parse-print}
use firezone_go.Go.Values.{Values}
use firezone_go.Errors.Api.{Response, parse_api_error}
use firezone_go.Go.Url.{Url}
use firezone_go.Http.{Log, World, Request, RequestBody, sent, request_of, with_query}
use firezone_go.Http.Status.{TellsStatus, parse_api_error-TellsStatus}
use firezone_go.Retry.First.{Answered, answered_success, answered_failure}

-- The body that `wrapBody` makes of a value is JSON text, which parses to an object with the value
-- under the key and nothing else. Numbers in the value are JSON numbers, and its texts and the key
-- are ASCII.
pub wrap_body_served :
    (key : Str) (v : Json)
    → IsAscii key
    → IsText v
    → (text : Str) × (wrap_body key (some v) ≡ ok (some text))
      × (parse text ≡ some (obj (field key v end)))
unfolding wrap_body IsText
wrap_body_served key v hk hv =
    (print (obj (field key v end)), refl, parse-print (field key v end) (hk, (hv, tt)))

-- A struct that is read from the text of an object.
pub unmarshal-print :
    {A : Type 0} (d : Decoder A) (zero a : A) (fs : Fields)
    → AreFields fs
    → d (obj fs) zero ≡ some a
    → unmarshal d zero (print (obj fs)) ≡ some a
unfolding unmarshal
unmarshal-print d zero a fs h decodes = rw (parse-print fs h) decodes

data_envelope-print :
    (v : Json) → IsText v → data_envelope (print (obj (field (codes "data") v end))) ≡ some (some v)
unfolding data_envelope dec_struct get_field key_matches dec_raw IsText
data_envelope-print v h =
    unmarshal-print (dec_struct (get_field (codes "data") dec_raw)) none (some v)
      (field (codes "data") v end) (ground arith, (h, tt)) refl

decode_data-print :
    {A : Type 0} (d : Decoder A) (zero a : A) (v : Json)
    → IsText v
    → d v zero ≡ some a
    → decode_data d zero (print (obj (field (codes "data") v end))) ≡ ok a
unfolding decode_data print
decode_data-print d zero a v h decodes = rw (data_envelope-print v h, decode_into, decodes) refl

module _ (w : World) (c : Client) (method request_path : Str) (query : Option Values)
    (body : RequestBody) (log : Log) (u : Url) (resp : Response)
    (h : Answered w c method request_path query body log u resp) where
  abbrev request : Request
  request = request_of c method (with_query query u) body

  -- A call whose first request is answered by an envelope of `v`, at a status from 200 to 299,
  -- gives what `v` decodes to, after that one request. The path resolves, the request can be built
  -- and the budget is not negative; numbers in `v` are JSON numbers, and texts are ASCII.
  pub do_into_served :
      {A : Type 0} (d : Decoder A) (zero a : A) (v : Json)
      → 200 ≤ resp.status_code
      → resp.status_code < 300
      → resp.body ≡ print (obj (field (codes "data") v end))
      → IsText v
      → d v zero ≡ some a
      → do_into w c method request_path query body d zero log ≡ (ok a, sent request ∷ log)
  unfolding do_into
  do_into_served d zero a v low high sends text decodes =
      rw
        (
          answered_success w c method request_path query body log u resp h low high,
          sends,
          decode_data-print d zero a v text decodes,
        )
        refl

  -- A call whose first request is answered by a status outside 200 to 299, other than 429, fails
  -- after that one request with the API error of the response, which the error tests tell by its
  -- status. The path resolves, the request can be built and the budget is not negative.
  pub do_into_refused :
      {A : Type 0} (d : Decoder A) (zero : A)
      → (resp.status_code < 200) ⊎ (300 ≤ resp.status_code)
      → resp.status_code ≢ 429
      → (do_into w c method request_path query body d zero log
          ≡ (err (api (parse_api_error resp)), sent request ∷ log))
        × TellsStatus (api (parse_api_error resp)) resp.status_code
  unfolding do_into
  do_into_refused d zero outside other = (
    rw (answered_failure w c method request_path query body log u resp h outside other) refl,
    parse_api_error-TellsStatus resp,
  )
