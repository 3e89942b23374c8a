-- ===== src/Path.antt =====
-- path.go: the check of a caller's ID, and the building and resolving of request paths.
pub mod Resolve
pub mod Segments
use firezone_go.Prelude.{
  Bool, ◌||◌, List, [], ◌∷◌, ◌++◌, Option, none, some, Str, codes, str_eq, if◌then◌else◌, map, ◌≡◌,
  refl,
}
use firezone_go.Errors.{
  GoError, sentinel, err_missing_id, errorf, errorf_w, external, Result, ok, err,
}
use firezone_go.Go.Escape.{path_segment, escape, unescape}
use firezone_go.Go.Strings.{join, trim_suffix}
use firezone_go.Go.Url.{Url, escaped_path}

-- `none` is a nil error.
unfoldable pub check_id : Str → Str → Option GoError
check_id name id =
    if str_eq id (codes "")
    then some (errorf_w (codes "firezone: %s %w") (name ∷ []) (sentinel err_missing_id))
    else if str_eq id (codes ".") || str_eq id (codes "..")
    then some (errorf (codes "firezone: %s %q is not a valid path segment") (name ∷ id ∷ []))
    else none

unfoldable pub build_path : List Str → Str
build_path segments = join (map (escape path_segment) segments) (codes "/")

-- The copy of the base differs in its two path fields only.
unfoldable pub resolve_path : Url → Str → Result Url
resolve_path base request_path =
    let escaped = trim_suffix (escaped_path base) (codes "/") ++ (codes "/" ++ request_path) in
    elim (unescape path_segment escaped) [
      | none ↦ err (errorf_w (codes "firezone: building request path: %w") [] (external escaped))
      | some decoded ↦ ok (record base { path = decoded; raw_path = escaped })
    ]
