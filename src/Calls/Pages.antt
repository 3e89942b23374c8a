-- ===== src/Calls/Pages.antt =====
-- A List call whose first request is answered by a page.
use firezone_go.Prelude.{
  ℕ, ◌≤◌, ◌<◌, ◌∷◌, [], List, Option, none, some, Str, codes, ◌≡◌, refl, arith,
}
use firezone_go.Prelude.Int.{pos, max_int64}
use firezone_go.Calls.{do_list}
use firezone_go.Calls.Envelope.{decode_page, metadata_fields, list_envelope_fields, no_metadata}
use firezone_go.Calls.Served.{unmarshal-print}
use firezone_go.Client.{Client}
use firezone_go.Errors.{ok}
use firezone_go.Errors.Api.{Response}
use firezone_go.Go.Json.{Json, null, num, str, arr, obj, Items, Fields, end, field, item_list}
use firezone_go.Go.Json.Decode.{
  Decoder, dec_struct, dec_string, dec_list, dec_items, get_field, key_matches,
}
use firezone_go.Go.Json.Ints.{itoa-is_number, dec_int-itoa}
use firezone_go.Go.Json.Print.{print}
use firezone_go.Go.Json.RoundTrip.{IsAscii, IsText, AreTexts, AreFields}
use firezone_go.Go.Json.Texts.{AllOf}
use firezone_go.Go.Strconv.{itoa}
use firezone_go.Go.Url.{Url}
use firezone_go.Go.Values.{Values}
use firezone_go.Http.{Log, World, sent, request_of, with_query}
use firezone_go.Query.{PageMetadata, to_metadata}
use firezone_go.Retry.First.{Answered, answered_success}

-- The text of a cursor, and how the API encodes it: null if there is no such page.
abbrev pub cursor_json : Option Str → Json
cursor_json none = null
cursor_json (some s) = str s

abbrev pub cursor_of : Option Str → Str
cursor_of none = []
cursor_of (some s) = s

-- What a list response says.
pub record Listing : Type 0 where
  pub items : Items
  pub count : ℕ
  pub limit : ℕ
  pub next_page : Option Str
  pub prev_page : Option Str

abbrev metadata_json : Listing → Fields
metadata_json l = field (codes "count") (num (itoa (pos l.count))) (
    field (codes "limit") (num (itoa (pos l.limit))) (
      field (codes "next_page") (cursor_json l.next_page)
        (field (codes "prev_page") (cursor_json l.prev_page) end)))

abbrev pub listing_json : Listing → Fields
listing_json l =
    field (codes "data") (arr l.items) (field (codes "metadata") (obj (metadata_json l)) end)

pub record IsListing (l : Listing) : Type 0 where
  pub texts : AreTexts l.items
  pub count_fits : l.count ≤ max_int64
  pub limit_fits : l.limit ≤ max_int64
  pub next_ascii : AllOf IsAscii l.next_page
  pub prev_ascii : AllOf IsAscii l.prev_page

abbrev pub metadata_of : Listing → PageMetadata
metadata_of l = record {
  count = pos l.count;
  limit = pos l.limit;
  next_page = cursor_of l.next_page;
  prev_page = cursor_of l.prev_page;
}

dec_cursor : (o : Option Str) → dec_string (cursor_json o) [] ≡ some (cursor_of o)
unfolding dec_string
dec_cursor none = refl
dec_cursor (some s) = refl

cursor-IsText : (o : Option Str) → AllOf IsAscii o → IsText (cursor_json o)
unfolding IsText
cursor-IsText none h = tt
cursor-IsText (some s) h = h

metadata_fields-metadata_json :
    (l : Listing)
    → IsListing l
    → metadata_fields (metadata_json l) no_metadata
      ≡ some (record {
        count = pos l.count;
        limit = pos l.limit;
        next_page = cursor_of l.next_page;
        prev_page = cursor_of l.prev_page;
      })
unfolding metadata_fields get_field key_matches
metadata_fields-metadata_json l h =
    rw
      (
        dec_int-itoa l.count (pos 0) h.count_fits,
        dec_int-itoa l.limit (pos 0) h.limit_fits,
        dec_cursor l.next_page,
        dec_cursor l.prev_page,
      )
      refl

listing-AreFields : (l : Listing) → IsListing l → AreFields (listing_json l)
unfolding IsText
listing-AreFields l h = (
  ground arith,
  (
    h.texts,
    (
      ground arith,
      (
        (
          ground arith,
          (
            itoa-is_number l.count,
            (
              ground arith,
              (
                itoa-is_number l.limit,
                (
                  ground arith,
                  (
                    cursor-IsText l.next_page h.next_ascii,
                    (ground arith, (cursor-IsText l.prev_page h.prev_ascii, tt)),
                  ),
                ),
              ),
            ),
          ),
        ),
        tt,
      ),
    ),
  ),
)

list_envelope_fields-listing_json :
    {T : Type 0} (d : Decoder T) (zero : T) (l : Listing) (xs : List T)
    → IsListing l
    → dec_items d zero (item_list l.items) ≡ some xs
    → list_envelope_fields d zero (listing_json l) (record { items = []; metadata = no_metadata })
      ≡ some (record {
        items = xs;
        metadata = record {
          count = pos l.count;
          limit = pos l.limit;
          next_page = cursor_of l.next_page;
          prev_page = cursor_of l.prev_page;
        };
      })
unfolding list_envelope_fields get_field key_matches dec_list dec_struct
list_envelope_fields-listing_json d zero l xs h decodes =
    rw (decodes, metadata_fields-metadata_json l h) refl

decode_page-print :
    {T : Type 0} (d : Decoder T) (zero : T) (l : Listing) (xs : List T)
    → IsListing l
    → dec_items d zero (item_list l.items) ≡ some xs
    → decode_page d zero (print (obj (listing_json l)))
      ≡ ok (record { items = xs; metadata = metadata_of l })
unfolding decode_page dec_struct to_metadata print
decode_page-print d zero l xs h decodes =
    rw
      (unmarshal-print (dec_struct (list_envelope_fields d zero))
        (record { items = []; metadata = no_metadata }) _ (listing_json l) (listing-AreFields l h)
        (list_envelope_fields-listing_json d zero l xs h decodes))
      refl

-- A List call whose first request is answered by a page, at a status from 200 to 299, gives the
-- items that the page's values decode to and its metadata, a cursor of null being the empty
-- string, after that one request. The path resolves, the request can be built and the budget is
-- not negative; the numbers of the page's metadata fit an int64, and its texts are ASCII.
pub do_list_served :
    {T : Type 0} (w : World) (c : Client) (method request_path : Str) (query : Values) (log : Log)
    (u : Url) (resp : Response) (d : Decoder T) (zero : T) (l : Listing) (xs : List T)
    → Answered w c method request_path (some query) none log u resp
    → 200 ≤ resp.status_code
    → resp.status_code < 300
    → resp.body ≡ print (obj (listing_json l))
    → IsListing l
    → dec_items d zero (item_list l.items) ≡ some xs
    → do_list w c method request_path query d zero log ≡ (
      ok (record { items = xs; metadata = metadata_of l }),
      sent (request_of c method (with_query (some query) u) none) ∷ log,
    )
unfolding do_list
do_list_served w c method request_path query log u resp d zero l xs h low high sends page decodes =
    rw
      (
        answered_success w c method request_path (some query) none log u resp h low high,
        sends,
        decode_page-print d zero l xs page decodes,
      )
      refl
