-- ===== src/Sites.antt =====
-- sites.go: the Sites, and the Gateways service of one Site.
pub mod Guards
pub mod Requests
pub mod Types
use firezone_go.Gateways.{GatewaysService}
use firezone_go.Sites.Types.{
  Site, zero_site, site_fields, CreateSiteRequest, create_site_request_json, UpdateSiteRequest,
  update_site_request_json, SiteListOptions, zero_site_list_options,
}
use firezone_go.Prelude.{
  Bool, true, false, not, List, [], ◌∷◌, ◌++◌, Option, none, some, Str, codes, str_eq,
  if◌then◌else◌, map, ℕ,
}
use firezone_go.Prelude.Int.{ℤ, pos}
use firezone_go.Calls.{check, ◌>>◌, or_zero, wrap_body, do_into, do_only, do_list}
use firezone_go.Client.{Client}
use firezone_go.Go.Json.{arr, items, Json}
use firezone_go.Go.Json.Decode.{dec_struct}
use firezone_go.Go.Json.Encode.{array}
use firezone_go.Go.Values.{Values, set}
use firezone_go.Http.{World, M, ◌>>=◌, lift, pure}
use firezone_go.Path.{check_id, build_path}
use firezone_go.Query.{ListOptions, Page, filter_query, list_options_to_query}
use firezone_go.Prelude.{option_map}

pub record SitesService : Type 0 where
  pub client : Client

unfoldable pub gateways : SitesService → Str → GatewaysService
gateways s site_id = record { client = s.client; site_id = site_id }

unfoldable pub site_query : Option SiteListOptions → Values
unfolding filter_query
site_query given =
    let opts = or_zero zero_site_list_options given in
    filter_query opts.list_options ((codes "name", opts.name) ∷ [])

module _ (w : World) (s : SitesService) where
  unfoldable pub get : Str → M Site
  unfolding check_id build_path do_into site_fields
  get id = do
    check (check_id (codes "site ID") id)
    do_into w s.client (codes "GET") (build_path (codes "sites" ∷ id ∷ [])) none none
        (dec_struct site_fields) zero_site

  unfoldable pub list : Option SiteListOptions → M (Page Site)
  unfolding do_list site_fields site_query
  list opts = do
    do_list w s.client (codes "GET") (codes "sites") (site_query opts) (dec_struct site_fields)
        zero_site

  unfoldable pub create : Option CreateSiteRequest → M Site
  unfolding wrap_body create_site_request_json do_into site_fields
  create req = do
    body ← lift (wrap_body (codes "site") (option_map create_site_request_json req))
    do_into w s.client (codes "POST") (codes "sites") none body (dec_struct site_fields) zero_site

  unfoldable pub update : Str → Option UpdateSiteRequest → M Site
  unfolding check_id build_path wrap_body update_site_request_json do_into site_fields
  update id req = do
    check (check_id (codes "site ID") id)
    body ← lift (wrap_body (codes "site") (option_map update_site_request_json req))
    do_into w s.client (codes "PATCH") (build_path (codes "sites" ∷ id ∷ [])) none body
        (dec_struct site_fields) zero_site

  unfoldable pub delete : Str → M (Unit {0})
  unfolding check_id build_path do_only
  delete id = do
    check (check_id (codes "site ID") id)
    do_only w s.client (codes "DELETE") (build_path (codes "sites" ∷ id ∷ [])) none none
