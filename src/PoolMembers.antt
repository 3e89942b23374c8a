-- ===== src/PoolMembers.antt =====
-- pool_members.go: the Client devices of a static device pool.
pub mod Guards
pub mod Requests
pub mod Types
use firezone_go.PoolMembers.Types.{
  PoolMember, zero_pool_member, pool_member_fields, PoolMemberEntry, pool_member_entry_json,
  PoolMemberPatchBody, pool_member_patch_body_json, PoolMemberDeviceIds,
  zero_pool_member_device_ids, pool_member_device_ids_fields,
}
use firezone_go.Prelude.{
  Bool, true, false, not, List, [], ◌∷◌, ◌++◌, Option, none, some, Str, codes, str_eq,
  if◌then◌else◌, map, ℕ,
}
use firezone_go.Prelude.Int.{ℤ, pos}
use firezone_go.Calls.{check, ◌>>◌, or_zero, wrap_body, do_into, do_only, do_list}
use firezone_go.Client.{Client}
use firezone_go.Go.Json.{arr, items, Json}
use firezone_go.Go.Json.Decode.{dec_struct}
use firezone_go.Go.Json.Encode.{array}
use firezone_go.Go.Values.{Values, set}
use firezone_go.Http.{World, M, ◌>>=◌, lift, pure}
use firezone_go.Path.{check_id, build_path}
use firezone_go.Query.{ListOptions, Page, filter_query, list_options_to_query}
use firezone_go.Prelude.{option_map}

pub record PoolMembersService : Type 0 where
  pub client : Client
  pub resource_id : Str

unfoldable pub base_path : PoolMembersService → Str
unfolding build_path
base_path s = build_path (codes "resources" ∷ s.resource_id ∷ codes "pool_members" ∷ [])

module _ (w : World) (s : PoolMembersService) where
  unfoldable pub list : Option ListOptions → M (Page PoolMember)
  unfolding check_id base_path do_list pool_member_fields list_options_to_query
  list opts = do
    check (check_id (codes "Resource ID") s.resource_id)
    do_list w s.client (codes "GET") (base_path s) (list_options_to_query opts)
        (dec_struct pool_member_fields) zero_pool_member

  unfoldable pub replace_all : List Str → M (List Str)
  unfolding check_id base_path wrap_body pool_member_entry_json do_into
      pool_member_device_ids_fields
  replace_all device_ids = do
    check (check_id (codes "Resource ID") s.resource_id)
    body ← lift (
        wrap_body (codes "pool_members")
          (some (array (λ id. pool_member_entry_json (record { device_id = id })) device_ids)))
    result ←
        do_into w s.client (codes "PUT") (base_path s) none body
          (dec_struct pool_member_device_ids_fields) zero_pool_member_device_ids
    pure result.device_ids

  unfoldable pub patch : List Str → List Str → M (List Str)
  unfolding check_id base_path wrap_body pool_member_patch_body_json do_into
      pool_member_device_ids_fields
  patch add remove = do
    check (check_id (codes "Resource ID") s.resource_id)
    body ← lift (
        wrap_body (codes "pool_members")
          (some (pool_member_patch_body_json (record { add = add; remove = remove }))))
    result ←
        do_into w s.client (codes "PATCH") (base_path s) none body
          (dec_struct pool_member_device_ids_fields) zero_pool_member_device_ids
    pure result.device_ids
