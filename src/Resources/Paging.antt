-- ===== src/Resources/Paging.antt =====
-- The cursor loop of `ExampleListOptions` in example_test.go, which lists the Resources page by page.
use firezone_go.Prelude.{
  ℕ, zero, suc, ◌<◌, ◌≢◌, List, [], ◌∷◌, ◌++◌, Option, none, some, Str, codes, str_eq, str_eq_of_ne,
  if◌then◌else◌, length, ◌≡◌, refl, ap, sym, ◌∙◌, arith, IsBytes,
}
use mathlib.Core.Path.{subst}
use firezone_go.Prelude.Int.{pos}
use firezone_go.Calls.Pages.{Listing, listing_json, IsListing, metadata_of, do_list_served}
use firezone_go.Errors.{ok, errorf}
use firezone_go.Errors.Api.{Response}
use firezone_go.Go.Json.{obj, item_list}
use firezone_go.Go.Json.Decode.{dec_struct, dec_items}
use firezone_go.Go.Json.Print.{print}
use firezone_go.Go.Url.{Url}
use firezone_go.Go.Values.{Values, lookup}
use firezone_go.Http.{
  World, Log, M, Request, ◌>>=◌, fail, pure, replied, sent, request_of, with_query,
}
use firezone_go.Path.{resolve_path}
use firezone_go.Query.Encode.{IsText, parse_query}
use firezone_go.Query.Lookup.{non_empty}
use firezone_go.Query.Served.{filter_query_served}
use firezone_go.Resources.{ResourcesService, list, resource_query}
use firezone_go.Resources.Types.{Resource, zero_resource, resource_fields, ResourceListOptions}
use firezone_go.Retry.First.{Answered}

abbrev pub with_cursor : Str → ResourceListOptions → ResourceListOptions
with_cursor cursor opts = record opts {
  list_options = record opts.list_options { page_cursor = cursor };
}

module _ (w : World) (s : ResourcesService) where
  -- The items of all pages, of which the example prints the names, in `rounds` requests at most; the
  -- loop of the example has no bound, and logs an error where this one returns it.
  unfoldable pub list_all : ℕ → ResourceListOptions → M (List Resource)
  unfolding list
  list_all zero opts = fail (errorf (codes "out of rounds") [])
  list_all (suc rounds) opts =
      let rest = list_all rounds in
      list w s (some opts) >>= λ page.
      if str_eq page.metadata.next_page (codes "")
      then pure page.items
      else rest (with_cursor page.metadata.next_page opts) >>= λ items. pure (page.items ++ items)

continued :
    (xs : List Resource) (m : M (List Resource)) (log : Log) (ys : List Resource)
    → (m log).0 ≡ ok ys
    → ((m >>= λ items. pure (xs ++ items)) log).0 ≡ ok (xs ++ ys)
continued xs m log ys h = rw h refl

-- The pages of a server, by the cursor of the request.
abbrev pub Book : Type 0
Book = Option Str → Listing

-- A page that decodes to these Resources.
pub record IsPage (l : Listing) (xs : List Resource) : Type 0 where
  pub listing : IsListing l
  pub decodes : dec_items (dec_struct resource_fields) zero_resource (item_list l.items) ≡ some xs

-- From a cursor on, the pages hold `xs` and then each list of `more`, and the last has no next one.
abbrev pub IsBook : Book → Option Str → List Resource → List (List Resource) → Type 0
IsBook book cursor xs [] = IsPage (book cursor) xs × ((book cursor).next_page ≡ none)
IsBook book cursor xs (ys ∷ more) =
    IsPage (book cursor) xs
    × ((next : Str) × ((book cursor).next_page ≡ some next)
        × (next ≢ [])
        × IsBytes next
        × IsBook book (some next) ys more)

abbrev pub all_items : List Resource → List (List Resource) → List Resource
all_items xs [] = xs
all_items xs (ys ∷ more) = xs ++ all_items ys more

abbrev pub page_response : Listing → Response
page_response l = record {
  status_code = 200;
  retry_after = [];
  body = print (obj (listing_json l));
}

-- A server that accepts every request and answers by the page of the cursor in its query.
pub record Serves (w : World) (book : Book) : Type 0 where
  pub accepts : (req : Request) → w.refusal req ≡ none
  pub replies :
      (log : Log) (req : Request) (seen : Values)
      → parse_query req.url.raw_query ≡ some seen
      → w.reply log req ≡ replied (page_response (book (lookup (codes "page_cursor") seen)))

abbrev pub filters_of : ResourceListOptions → List (Str × Str)
filters_of opts =
    (codes "name", opts.name)
    ∷ (codes "type", opts.type)
    ∷ (codes "site_id", opts.site_id)
    ∷ (codes "address", opts.address)
    ∷ (codes "ip_stack", opts.ip_stack)
    ∷ []

module _ (w : World) (s : ResourcesService) (book : Book) (n : ℕ) (u : Url) (serves : Serves w book)
    (budget : s.client.max_retries ≡ pos n)
    (found : resolve_path s.client.base_url (codes "resources") ≡ ok u) where
  -- One page.
  list_served :
      (opts : ResourceListOptions) (log : Log) (xs : List Resource)
      → IsBytes opts.list_options.page_cursor
      → IsText (filters_of opts)
      → IsPage (book (non_empty opts.list_options.page_cursor)) xs
      → (log' : Log) × (list w s (some opts) log ≡ (
        ok (record {
          items = xs;
          metadata = metadata_of (book (non_empty opts.list_options.page_cursor));
        }),
        log',
      ))
  unfolding list resource_query request_of
  list_served opts log xs cursor bytes page =
      let query = resource_query (some opts) in
      let req = request_of s.client (codes "GET") (with_query (some query) u) none in
      let (seen, parsed, look) =
        filter_query_served s.client (codes "GET") u opts.list_options (filters_of opts) cursor
          bytes in
      let asked : lookup (codes "page_cursor") seen ≡ non_empty opts.list_options.page_cursor =
        look (codes "page_cursor") in
      let answered : Answered w s.client (codes "GET") (codes "resources") (some query) none log u
          (page_response (book (non_empty opts.list_options.page_cursor))) =
        record {
          retries = n;
          budget = budget;
          resolves = found;
          accepts = serves.accepts req;
          replies =
              serves.replies log req seen parsed ∙ ap (λ k. replied (page_response (book k))) asked;
        } in
      (
        sent req ∷ log,
        do_list_served w s.client (codes "GET") (codes "resources") query log u _
            (dec_struct resource_fields) zero_resource _ xs answered (omega arith) (omega arith)
            refl page.listing page.decodes,
      )

  gathered :
      (more : List (List Resource)) (rounds : ℕ) (opts : ResourceListOptions) (xs : List Resource)
      (log : Log)
      → IsBytes opts.list_options.page_cursor
      → IsText (filters_of opts)
      → IsBook book (non_empty opts.list_options.page_cursor) xs more
      → length more < rounds
      → (list_all w s rounds opts log).0 ≡ ok (all_items xs more)
  unfolding list_all
  gathered more zero opts xs log cursor bytes pages enough = absurd (omega (arith, enough))
  gathered [] (suc rounds) opts xs log cursor bytes (page, last) enough =
      let (log', same) = list_served opts log xs cursor bytes page in rw (same, last) refl
  gathered (ys ∷ more) (suc rounds) opts xs log cursor bytes
        (page, (next, goes_on, some_next, next_bytes, pages)) enough =
      let (log', same) = list_served opts log xs cursor bytes page in
      let on : non_empty next ≡ some next = rw (str_eq_of_ne next (codes "") some_next) refl in
      let rest =
        gathered more rounds (with_cursor next opts) ys log' next_bytes bytes
          (subst (λ k. IsBook book k ys more) (sym on) pages) (omega (arith, enough)) in
      rw (same, goes_on, str_eq_of_ne next (codes "") some_next)
        (continued xs (list_all w s rounds (with_cursor next opts)) log' (all_items ys more) rest)

-- A caller that lists the Resources page by page, always handing back the cursor of the next page
-- until there is none, gathers the Resources of all pages in their order. The server accepts every
-- request and answers by the page whose cursor it reads in the query; no page's cursor is empty,
-- cursors and filters are of bytes and what the pages say is ASCII with numbers that fit an int64.
-- The path is resolved and the budget is not negative. As many rounds as there are pages are enough.
pub list_all_served :
    (w : World) (s : ResourcesService) (book : Book) (n : ℕ) (u : Url) (opts : ResourceListOptions)
    (xs : List Resource) (more : List (List Resource)) (rounds : ℕ) (log : Log)
    → Serves w book
    → s.client.max_retries ≡ pos n
    → resolve_path s.client.base_url (codes "resources") ≡ ok u
    → IsText (filters_of opts)
    → IsBook book none xs more
    → length more < rounds
    → (list_all w s rounds (with_cursor [] opts) log).0 ≡ ok (all_items xs more)
list_all_served w s book n u opts xs more rounds log serves budget found bytes pages enough =
    gathered w s book n u serves budget found more rounds (with_cursor [] opts) xs log tt bytes
      pages enough
