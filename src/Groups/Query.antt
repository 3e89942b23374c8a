-- ===== src/Groups/Query.antt =====
-- The query that lists Groups, whose filter on the directory has three states.
use firezone_go.Prelude.{
  List, [], ◌∷◌, Option, none, some, Str, codes, str_eq, str_eq→eq, if◌then◌else◌, ◌≡◌, refl, sym,
  ◌∙◌, Bool-cases, inl, inr,
}
use firezone_go.Go.Values.{Values, lookup}
use firezone_go.Go.Values.Laws.{lookup-set}
use firezone_go.Groups.{group_query, set_directory_id}
use firezone_go.Groups.Types.{GroupListOptions}
use firezone_go.Query.{filter_query}
use firezone_go.Query.Lookup.{filter_value, page_value, or_else, lookup-filter_query}

abbrev pub group_filters : GroupListOptions → List (Str × Str)
group_filters opts = (codes "name", opts.name) ∷ (codes "entity_type", opts.entity_type) ∷ []

lookup-set_directory_id :
    (o : Option Str) (q : Values) (k : Str)
    → lookup (codes "directory_id") q ≡ none
    → lookup k (set_directory_id o q) ≡ (if str_eq (codes "directory_id") k then o else lookup k q)
lookup-set_directory_id none q k missing = elim (Bool-cases (str_eq (codes "directory_id") k)) [
  | inl e ↦ rw (e, sym (str_eq→eq (codes "directory_id") k e)) missing
  | inr e ↦ rw e refl
]
lookup-set_directory_id (some id) q k missing = lookup-set k (codes "directory_id") id q

-- The query that lists Groups has, under "directory_id", exactly what the options hold: nothing for
-- nil, and the string for a pointer, "" included. Under any other key it has the filter of that
-- key, if it is not empty, else the pagination parameter.
pub lookup-group_query :
    (opts : GroupListOptions) (k : Str)
    → lookup k (group_query (some opts)) ≡ (
        if str_eq (codes "directory_id") k
        then opts.directory_id
        else or_else (filter_value (group_filters opts) k) (page_value opts.list_options k))
unfolding group_query
lookup-group_query opts k =
    lookup-set_directory_id opts.directory_id (filter_query opts.list_options (group_filters opts))
      k (lookup-filter_query opts.list_options (group_filters opts) (codes "directory_id"))
    ∙ rw (lookup-filter_query opts.list_options (group_filters opts) k) refl
