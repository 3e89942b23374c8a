-- ===== src/Query/Lookup.antt =====
-- Which parameters the query of a List call holds.
use firezone_go.Prelude.{
  List, [], ◌∷◌, Option, none, some, Str, codes, str_eq, if◌then◌else◌, ◌≡◌, refl, arith,
}
use firezone_go.Prelude.Int.{pos, ltb_ℤ}
use firezone_go.Go.Strconv.{itoa}
use firezone_go.Go.Values.{Values, set, lookup}
use firezone_go.Go.Values.Laws.{lookup-set}
use firezone_go.Query.{ListOptions, list_options_to_query, set_filters, filter_query}

abbrev pub or_else : Option Str → Option Str → Option Str
or_else none d = d
or_else (some v) d = some v

abbrev pub non_empty : Str → Option Str
non_empty v = if str_eq v (codes "") then none else some v

-- The last filter for a key that has a value.
abbrev pub filter_value : List (Str × Str) → Str → Option Str
filter_value [] k = none
filter_value ((j, v) ∷ fs) k =
    or_else (filter_value fs k) (if str_eq j k then non_empty v else none)

-- The pagination parameter for a key: a limit only if it is positive, a cursor only if it is set.
abbrev pub page_value : ListOptions → Str → Option Str
page_value opts k =
    if str_eq (codes "page_cursor") k
    then non_empty opts.page_cursor
    else if str_eq (codes "limit") k
    then if ltb_ℤ (pos 0) opts.limit then some (itoa opts.limit) else none
    else none

lookup-list_options_to_query :
    (opts : ListOptions) (k : Str)
    → lookup k (list_options_to_query (some opts)) ≡ page_value opts k
unfolding list_options_to_query lookup
lookup-list_options_to_query opts k = ground (
  arith,
  lookup-set k (codes "limit") (itoa opts.limit) [],
  lookup-set k (codes "page_cursor") opts.page_cursor [],
  lookup-set k (codes "page_cursor") opts.page_cursor (set (codes "limit") (itoa opts.limit) []),
)

lookup-set_filters :
    (fs : List (Str × Str)) (q : Values) (k : Str)
    → lookup k (set_filters fs q) ≡ or_else (filter_value fs k) (lookup k q)
unfolding set_filters
lookup-set_filters [] q k = refl
lookup-set_filters ((j, v) ∷ fs) q k =
    ground
      (arith, lookup-set_filters fs q k, lookup-set_filters fs (set j v q) k, lookup-set k j v q)

-- The query of a List call holds, for every key, the last non-empty filter for it, else the
-- pagination parameter of that name, and nothing else: an empty filter, a limit that is not
-- positive and an empty cursor are left out.
pub lookup-filter_query :
    (opts : ListOptions) (filters : List (Str × Str)) (k : Str)
    → lookup k (filter_query opts filters) ≡ or_else (filter_value filters k) (page_value opts k)
unfolding filter_query
lookup-filter_query opts filters k = rw (lookup-set_filters, lookup-list_options_to_query)
