-- ===== src/Query/Served.antt =====
-- What the server reads from the URL of a List call.
use firezone_go.Prelude.{
  ℕ, suc, ◌<◌, true, List, [], ◌∷◌, none, some, Str, codes, str_eq, ◌≡◌, ◌∙◌, arith, All-weaken,
  IsBytes, Bool-cases, inl, inr,
}
use firezone_go.Prelude.Int.{ℤ, pos, negsuc, ltb_ℤ}
use firezone_go.Client.{Client}
use firezone_go.Go.Strconv.{itoa, digits, is_decimal}
use firezone_go.Go.Strconv.Laws.{digits-decimal}
use firezone_go.Go.Url.{Url}
use firezone_go.Go.Values.{Values, set, lookup}
use firezone_go.Http.{request_of, with_query}
use firezone_go.Query.{
  ListOptions, filter_query, list_options_to_query, set_filters, set_limit, set_page_cursor,
}
use firezone_go.Query.Encode.{IsText, parse_query, parse_query-encode}
use firezone_go.Query.Lookup.{filter_value, page_value, or_else, lookup-filter_query}

set-IsText : (k v : Str) (q : Values) → IsBytes k → IsBytes v → IsText q → IsText (set k v q)
unfolding set
set-IsText k v [] hk hv _ = ((hk, hv), tt)
set-IsText k v ((j, x) ∷ q) hk hv (he, h) = elim (Bool-cases (str_eq j k)) [
  | inl e ↦ rw e ((hk, hv), h)
  | inr e ↦ rw e (he, set-IsText k v q hk hv h)
]

decimal-bound : (c : ℕ) → is_decimal c ≡ true → c < 256
unfolding is_decimal
decimal-bound c h = ground arith

digits-IsBytes : (n : ℕ) → IsBytes (digits (suc n) n)
digits-IsBytes n = All-weaken decimal-bound (digits (suc n) n) (digits-decimal (suc n) n)

itoa-IsBytes : (z : ℤ) → IsBytes (itoa z)
unfolding itoa
itoa-IsBytes (pos n) = digits-IsBytes n
itoa-IsBytes (negsuc n) = (omega arith, digits-IsBytes (suc n))

names-IsBytes : IsBytes (codes "limit") × IsBytes (codes "page_cursor")
names-IsBytes = ground arith

set_limit-IsText : (opts : ListOptions) → IsText (set_limit opts [])
set_limit-IsText opts = elim (Bool-cases (ltb_ℤ (pos 0) opts.limit)) [
  | inl e ↦ rw e (set-IsText (codes "limit") _ [] names-IsBytes.0 (itoa-IsBytes opts.limit) tt)
  | inr e ↦ rw e tt
]

set_page_cursor-IsText :
    (opts : ListOptions) (q : Values)
    → IsBytes opts.page_cursor
    → IsText q
    → IsText (set_page_cursor opts q)
set_page_cursor-IsText opts q h hq = elim (Bool-cases (str_eq opts.page_cursor (codes ""))) [
  | inl e ↦ rw e hq
  | inr e ↦ rw e (set-IsText (codes "page_cursor") _ q names-IsBytes.1 h hq)
]

set_filters-IsText :
    (fs : List (Str × Str)) (q : Values) → IsText fs → IsText q → IsText (set_filters fs q)
unfolding set_filters
set_filters-IsText [] q _ hq = hq
set_filters-IsText ((k, v) ∷ fs) q ((hk, hv), h) hq = elim (Bool-cases (str_eq v (codes ""))) [
  | inl e ↦ rw e (set_filters-IsText fs q h hq)
  | inr e ↦ rw e (set_filters-IsText fs (set k v q) h (set-IsText k v q hk hv hq))
]

filter_query-IsText :
    (opts : ListOptions) (filters : List (Str × Str))
    → IsBytes opts.page_cursor
    → IsText filters
    → IsText (filter_query opts filters)
unfolding filter_query list_options_to_query
filter_query-IsText opts filters cursor bytes =
    set_filters-IsText filters _ bytes
      (set_page_cursor-IsText opts (set_limit opts []) cursor (set_limit-IsText opts))

-- A server that parses the query of a List call's URL finds under every key the last filter for it
-- that is not empty, else the pagination parameter of that name, and nothing else, whatever bytes
-- the filters and the cursor hold.
pub filter_query_served :
    (c : Client) (method : Str) (u : Url) (opts : ListOptions) (filters : List (Str × Str))
    → IsBytes opts.page_cursor
    → IsText filters
    → let request = request_of c method (with_query (some (filter_query opts filters)) u) none in
      (seen : Values) × (parse_query request.url.raw_query ≡ some seen)
      × ((k : Str) → lookup k seen ≡ or_else (filter_value filters k) (page_value opts k))
unfolding request_of
filter_query_served c method u opts filters cursor bytes =
    let text : IsText (filter_query opts filters) = filter_query-IsText opts filters cursor bytes in
    let (seen, parsed, same) = parse_query-encode (filter_query opts filters) text in
    (seen, parsed, λ k. same k ∙ lookup-filter_query opts filters k)
