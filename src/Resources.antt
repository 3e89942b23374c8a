-- ===== src/Resources.antt =====
-- resources.go: the Resources, and the pool members service of one Resource.
pub mod Guards
pub mod Paging
pub mod Patch
pub mod Requests
pub mod Served
pub mod Types
use firezone_go.PoolMembers.{PoolMembersService}
use firezone_go.Resources.Types.{
  Resource, zero_resource, resource_fields, CreateResourceRequest, create_resource_request_json,
  UpdateResourceRequest, update_resource_request_json, ResourceListOptions,
  zero_resource_list_options,
}
use firezone_go.Prelude.{
  Bool, true, false, not, List, [], ◌∷◌, ◌++◌, Option, none, some, Str, codes, str_eq,
  if◌then◌else◌, map, ℕ,
}
use firezone_go.Prelude.Int.{ℤ, pos}
use firezone_go.Calls.{check, ◌>>◌, or_zero, wrap_body, do_into, do_only, do_list}
use firezone_go.Client.{Client}
use firezone_go.Go.Json.{arr, items, Json}
use firezone_go.Go.Json.Decode.{dec_struct}
use firezone_go.Go.Json.Encode.{array}
use firezone_go.Go.Values.{Values, set}
use firezone_go.Http.{World, M, ◌>>=◌, lift, pure}
use firezone_go.Path.{check_id, build_path}
use firezone_go.Query.{ListOptions, Page, filter_query, list_options_to_query}
use firezone_go.Prelude.{option_map}

pub record ResourcesService : Type 0 where
  pub client : Client

unfoldable pub pool_members : ResourcesService → Str → PoolMembersService
pool_members s resource_id = record { client = s.client; resource_id = resource_id }

unfoldable pub resource_query : Option ResourceListOptions → Values
unfolding filter_query
resource_query given =
    let opts = or_zero zero_resource_list_options given in
    filter_query opts.list_options (
      (codes "name", opts.name)
      ∷ (codes "type", opts.type)
      ∷ (codes "site_id", opts.site_id)
      ∷ (codes "address", opts.address)
      ∷ (codes "ip_stack", opts.ip_stack)
      ∷ [])

module _ (w : World) (s : ResourcesService) where
  unfoldable pub get : Str → M Resource
  unfolding check_id build_path do_into resource_fields
  get id = do
    check (check_id (codes "Resource ID") id)
    do_into w s.client (codes "GET") (build_path (codes "resources" ∷ id ∷ [])) none none
        (dec_struct resource_fields) zero_resource

  unfoldable pub list : Option ResourceListOptions → M (Page Resource)
  unfolding do_list resource_fields resource_query
  list opts = do
    do_list w s.client (codes "GET") (codes "resources") (resource_query opts)
        (dec_struct resource_fields) zero_resource

  unfoldable pub create : Option CreateResourceRequest → M Resource
  unfolding wrap_body create_resource_request_json do_into resource_fields
  create req = do
    body ← lift (wrap_body (codes "resource") (option_map create_resource_request_json req))
    do_into w s.client (codes "POST") (codes "resources") none body (dec_struct resource_fields)
        zero_resource

  unfoldable pub update : Str → Option UpdateResourceRequest → M Resource
  unfolding check_id build_path wrap_body update_resource_request_json do_into resource_fields
  update id req = do
    check (check_id (codes "Resource ID") id)
    body ← lift (wrap_body (codes "resource") (option_map update_resource_request_json req))
    do_into w s.client (codes "PATCH") (build_path (codes "resources" ∷ id ∷ [])) none body
        (dec_struct resource_fields) zero_resource

  unfoldable pub delete : Str → M (Unit {0})
  unfolding check_id build_path do_only
  delete id = do
    check (check_id (codes "Resource ID") id)
    do_only w s.client (codes "DELETE") (build_path (codes "resources" ∷ id ∷ [])) none none
