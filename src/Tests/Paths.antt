-- ===== src/Tests/Paths.antt =====
-- path.go and the paths of gateways.go.
use firezone_go.Prelude.{
  List, [], ◌∷◌, ◌++◌, none, some, Str, codes, ◌≡◌, ◌≢◌, refl, arith, All, IsBytes,
}
use firezone_go.Errors.{ok}
use firezone_go.Gateways.Paths.{base_path-injective}
use firezone_go.Go.Escape.{path_segment, escape, unescape}
use firezone_go.Go.Strings.{join, trim_suffix}
use firezone_go.Go.Url.{Url, escaped_path}
use firezone_go.Path.{check_id, build_path, resolve_path}
use firezone_go.Path.Resolve.{resolve_path-build_path}
use firezone_go.Path.Segments.{segments_of, segments_of-build_path, check_id-IsInert, IsInert}
use firezone_go.Tests.Data.{base, gateways}

abbrev hostile : Str
hostile = codes "../a?b#c%2f"

abbrev segments : List Str
segments = codes "sites" ∷ hostile ∷ []

segments-IsBytes : All IsBytes segments
segments-IsBytes = ground arith

hostile-IsBytes : IsBytes hostile
hostile-IsBytes = ground arith

base-IsBytes : IsBytes base.path
base-IsBytes = ground arith

built : build_path segments ≡ codes "sites/..%2Fa%3Fb%23c%252f"
unfolding build_path escape join
built = refl

accepted : check_id (codes "Gateway ID") hostile ≡ none
unfolding check_id
accepted = refl

site_accepted : check_id (codes "site ID") gateways.site_id ≡ none
unfolding check_id
site_accepted = refl

segments_of-build_path_example : segments_of (build_path segments) ≡ some segments
segments_of-build_path_example = segments_of-build_path segments (λ e. cc) segments-IsBytes

check_id-IsInert_example :
    (escape path_segment hostile ≢ codes "")
    × (escape path_segment hostile ≢ codes ".")
    × (escape path_segment hostile ≢ codes "..")
    × All IsInert (escape path_segment hostile)
check_id-IsInert_example = check_id-IsInert (codes "Gateway ID") hostile accepted hostile-IsBytes

resolve_path-build_path_example :
    (prefix : Str) × (u : Url) × (resolve_path base (build_path segments) ≡ ok u)
    × (unescape path_segment (trim_suffix (escaped_path base) (codes "/")) ≡ some prefix)
    × (u.path ≡ prefix ++ b'/' ∷ join segments (codes "/"))
    × (escaped_path u ≡ trim_suffix (escaped_path base) (codes "/") ++ b'/' ∷ build_path segments)
    × (u ≡ record base { path = u.path; raw_path = u.raw_path })
resolve_path-build_path_example =
    resolve_path-build_path base segments base-IsBytes segments-IsBytes

site-IsBytes : IsBytes gateways.site_id
site-IsBytes = ground arith

base_path-injective_example : (gateways.site_id ≡ gateways.site_id) × (hostile ∷ [] ≡ hostile ∷ [])
base_path-injective_example =
    base_path-injective gateways gateways (hostile ∷ []) (hostile ∷ []) site-IsBytes site-IsBytes
      (hostile-IsBytes, tt) (hostile-IsBytes, tt) refl
