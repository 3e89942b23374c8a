-- ===== src/Query.antt =====
-- pagination.go and the query helpers of firezone.go: list options, and the query of a List call.
pub mod Lookup
pub mod Encode
pub mod Served
use firezone_go.Prelude.{
  Bool, not, List, [], ◌∷◌, Option, none, some, Str, codes, str_eq, if◌then◌else◌, ◌≡◌, refl,
}
use firezone_go.Prelude.Int.{ℤ, pos, negsuc, ltb_ℤ}
use firezone_go.Go.Strconv.{itoa}
use firezone_go.Go.Values.{Values, set}

pub record ListOptions : Type 0 where
  pub limit : ℤ
  pub page_cursor : Str

pub record PageMetadata : Type 0 where
  pub count : ℤ
  pub limit : ℤ
  pub next_page : Str
  pub prev_page : Str

pub record Page (T : Type 0) : Type 0 where
  pub items : List T
  pub metadata : PageMetadata

pub record PageMetadataBody : Type 0 where
  pub count : ℤ
  pub limit : ℤ
  pub next_page : Str
  pub prev_page : Str

unfoldable pub to_metadata : PageMetadataBody → PageMetadata
to_metadata b = record {
  count = b.count;
  limit = b.limit;
  next_page = b.next_page;
  prev_page = b.prev_page;
}

abbrev pub set_limit : ListOptions → Values → Values
set_limit opts q = if ltb_ℤ (pos 0) opts.limit then set (codes "limit") (itoa opts.limit) q else q

abbrev pub set_page_cursor : ListOptions → Values → Values
set_page_cursor opts q =
    if not (str_eq opts.page_cursor (codes ""))
    then set (codes "page_cursor") opts.page_cursor q
    else q

-- A nil `opts` is `none`.
unfoldable pub list_options_to_query : Option ListOptions → Values
list_options_to_query none = []
list_options_to_query (some opts) = set_page_cursor opts (set_limit opts [])

-- The loop of `filterQuery`.
unfoldable pub set_filters : List (Str × Str) → Values → Values
set_filters [] q = q
set_filters ((k, v) ∷ filters) q =
    set_filters filters (if not (str_eq v (codes "")) then set k v q else q)

unfoldable pub filter_query : ListOptions → List (Str × Str) → Values
unfolding list_options_to_query set_filters
filter_query opts filters = set_filters filters (list_options_to_query (some opts))
