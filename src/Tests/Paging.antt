-- ===== src/Tests/Paging.antt =====
-- The cursor loop over a server of two pages.
use firezone_go.Prelude.{[], ◌∷◌, Option, none, some, Str, codes, ◌≡◌, refl, ap, arith, IsBytes}
use firezone_go.Calls.Pages.{Listing}
use firezone_go.Errors.{ok}
use firezone_go.Go.Json.{str, obj, field, end, items}
use firezone_go.Go.Json.Decode.{dec_struct, dec_items}
use firezone_go.Go.Json.RoundTrip.{IsText}
use firezone_go.Go.Url.{Url}
use firezone_go.Go.Values.{Values, lookup}
use firezone_go.Http.{World, Reply, replied, no_response}
use firezone_go.Path.{resolve_path}
use firezone_go.Query.Encode.{parse_query}
use firezone_go.Resources.{ResourcesService}
use firezone_go.Resources.Paging.{
  list_all, with_cursor, Book, IsPage, IsBook, Serves, page_response, filters_of, list_all_served,
}
use firezone_go.Resources.Types.{
  Resource, zero_resource, resource_fields, ResourceListOptions, zero_resource_list_options,
}
use firezone_go.Tests.Data.{base, client, world}

abbrev listing_of : Str → Option Str → Listing
listing_of name next = record {
  items = items (obj (field (codes "name") (str name) end) ∷ []);
  count = 2;
  limit = 1;
  next_page = next;
  prev_page = none;
}

abbrev book : Book
book none = listing_of (codes "db") (some (codes "c/1"))
book (some cursor) = listing_of (codes "web") none

abbrev db : Resource
db = record zero_resource { name = codes "db" }

abbrev web : Resource
web = record zero_resource { name = codes "web" }

abbrev answer : Option Values → Reply
answer none = no_response (codes "bad query")
answer (some seen) = replied (page_response (book (lookup (codes "page_cursor") seen)))

abbrev paged : World
paged = record world { reply = λ log req. answer (parse_query req.url.raw_query) }

paged-Serves : Serves paged book
paged-Serves = record { accepts = λ req. refl; replies = λ log req seen h. ap answer h }

first-IsPage : IsPage (book none) (db ∷ [])
unfolding IsText resource_fields dec_struct dec_items
first-IsPage = record {
  listing = record {
    texts = ground arith;
    count_fits = omega arith;
    limit_fits = omega arith;
    next_ascii = ground arith;
    prev_ascii = tt;
  };
  decodes = refl;
}

last-IsPage : IsPage (book (some (codes "c/1"))) (web ∷ [])
unfolding IsText resource_fields dec_struct dec_items
last-IsPage = record {
  listing = record {
    texts = ground arith;
    count_fits = omega arith;
    limit_fits = omega arith;
    next_ascii = tt;
    prev_ascii = tt;
  };
  decodes = refl;
}

cursor-IsBytes : IsBytes (codes "c/1")
cursor-IsBytes = ground arith

book-IsBook : IsBook book none (db ∷ []) ((web ∷ []) ∷ [])
book-IsBook = (first-IsPage, (codes "c/1", refl, (λ e. cc), cursor-IsBytes, (last-IsPage, refl)))

abbrev resources_url : Url
resources_url = record base { path = codes "/v1/resources"; raw_path = codes "/v1/resources" }

resolved : resolve_path client.base_url (codes "resources") ≡ ok resources_url
unfolding resolve_path firezone_go.Go.Escape.unescape firezone_go.Go.Strings.trim_suffix
    firezone_go.Go.Url.escaped_path firezone_go.Go.Escape.escape
resolved = refl

abbrev resources : ResourcesService
resources = record { client = client }

abbrev options : ResourceListOptions
options = record zero_resource_list_options { type = codes "dns" }

options-IsText : firezone_go.Query.Encode.IsText (filters_of options)
options-IsText = ground arith

list_all_served_example :
    (list_all paged resources 5 (with_cursor [] options) []).0 ≡ ok (db ∷ web ∷ [])
list_all_served_example =
    list_all_served paged resources book 2 resources_url options (db ∷ []) ((web ∷ []) ∷ []) 5 []
      paged-Serves refl resolved options-IsText book-IsBook (omega arith)
