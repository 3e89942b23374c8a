-- ===== src/Groups.antt =====
-- groups.go: the Groups, and the memberships service of one Group.
pub mod Guards
pub mod Query
pub mod Requests
pub mod Types
use firezone_go.Memberships.{MembershipsService}
use firezone_go.Groups.Types.{
  Group, zero_group, group_fields, CreateGroupRequest, create_group_request_json,
  UpdateGroupRequest, update_group_request_json, GroupListOptions, zero_group_list_options,
}
use firezone_go.Prelude.{
  Bool, true, false, not, List, [], ◌∷◌, ◌++◌, Option, none, some, Str, codes, str_eq,
  if◌then◌else◌, map, ℕ,
}
use firezone_go.Prelude.Int.{ℤ, pos}
use firezone_go.Calls.{check, ◌>>◌, or_zero, wrap_body, do_into, do_only, do_list}
use firezone_go.Client.{Client}
use firezone_go.Go.Json.{arr, items, Json}
use firezone_go.Go.Json.Decode.{dec_struct}
use firezone_go.Go.Json.Encode.{array}
use firezone_go.Go.Values.{Values, set}
use firezone_go.Http.{World, M, ◌>>=◌, lift, pure}
use firezone_go.Path.{check_id, build_path}
use firezone_go.Query.{ListOptions, Page, filter_query, list_options_to_query}
use firezone_go.Prelude.{option_map}

pub record GroupsService : Type 0 where
  pub client : Client

unfoldable pub memberships : GroupsService → Str → MembershipsService
memberships s group_id = record { client = s.client; group_id = group_id }

-- A nil `directory_id` is no filter; "" asks for the Groups that are not synced.
abbrev pub set_directory_id : Option Str → Values → Values
set_directory_id none q = q
set_directory_id (some id) q = set (codes "directory_id") id q

unfoldable pub group_query : Option GroupListOptions → Values
unfolding filter_query
group_query given =
    let opts = or_zero zero_group_list_options given in
    set_directory_id opts.directory_id (
      filter_query opts.list_options
        ((codes "name", opts.name) ∷ (codes "entity_type", opts.entity_type) ∷ []))

module _ (w : World) (s : GroupsService) where
  unfoldable pub get : Str → M Group
  unfolding check_id build_path do_into group_fields
  get id = do
    check (check_id (codes "Group ID") id)
    do_into w s.client (codes "GET") (build_path (codes "groups" ∷ id ∷ [])) none none
        (dec_struct group_fields) zero_group

  unfoldable pub list : Option GroupListOptions → M (Page Group)
  unfolding do_list group_fields group_query
  list opts = do
    do_list w s.client (codes "GET") (codes "groups") (group_query opts) (dec_struct group_fields)
        zero_group

  unfoldable pub create : Option CreateGroupRequest → M Group
  unfolding wrap_body create_group_request_json do_into group_fields
  create req = do
    body ← lift (wrap_body (codes "group") (option_map create_group_request_json req))
    do_into w s.client (codes "POST") (codes "groups") none body (dec_struct group_fields)
        zero_group

  unfoldable pub update : Str → Option UpdateGroupRequest → M Group
  unfolding check_id build_path wrap_body update_group_request_json do_into group_fields
  update id req = do
    check (check_id (codes "Group ID") id)
    body ← lift (wrap_body (codes "group") (option_map update_group_request_json req))
    do_into w s.client (codes "PATCH") (build_path (codes "groups" ∷ id ∷ [])) none body
        (dec_struct group_fields) zero_group

  unfoldable pub delete : Str → M (Unit {0})
  unfolding check_id build_path do_only
  delete id = do
    check (check_id (codes "Group ID") id)
    do_only w s.client (codes "DELETE") (build_path (codes "groups" ∷ id ∷ [])) none none
