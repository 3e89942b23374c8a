-- ===== src/Memberships.antt =====
-- memberships.go: the members of a Group.
pub mod Guards
pub mod Requests
pub mod Types
use firezone_go.Memberships.Types.{
  GroupMember, zero_group_member, group_member_fields, MembershipEntry, membership_entry_json,
  MembershipPatchBody, membership_patch_body_json, MembershipActorIds, zero_membership_actor_ids,
  membership_actor_ids_fields,
}
use firezone_go.Prelude.{
  Bool, true, false, not, List, [], ◌∷◌, ◌++◌, Option, none, some, Str, codes, str_eq,
  if◌then◌else◌, map, ℕ,
}
use firezone_go.Prelude.Int.{ℤ, pos}
use firezone_go.Calls.{check, ◌>>◌, or_zero, wrap_body, do_into, do_only, do_list}
use firezone_go.Client.{Client}
use firezone_go.Go.Json.{arr, items, Json}
use firezone_go.Go.Json.Decode.{dec_struct}
use firezone_go.Go.Json.Encode.{array}
use firezone_go.Go.Values.{Values, set}
use firezone_go.Http.{World, M, ◌>>=◌, lift, pure}
use firezone_go.Path.{check_id, build_path}
use firezone_go.Query.{ListOptions, Page, filter_query, list_options_to_query}
use firezone_go.Prelude.{option_map}

pub record MembershipsService : Type 0 where
  pub client : Client
  pub group_id : Str

unfoldable pub base_path : MembershipsService → Str
unfolding build_path
base_path s = build_path (codes "groups" ∷ s.group_id ∷ codes "memberships" ∷ [])

module _ (w : World) (s : MembershipsService) where
  unfoldable pub list : Option ListOptions → M (Page GroupMember)
  unfolding check_id base_path do_list group_member_fields list_options_to_query
  list opts = do
    check (check_id (codes "Group ID") s.group_id)
    do_list w s.client (codes "GET") (base_path s) (list_options_to_query opts)
        (dec_struct group_member_fields) zero_group_member

  unfoldable pub replace_all : List Str → M (List Str)
  unfolding check_id base_path wrap_body membership_entry_json do_into membership_actor_ids_fields
  replace_all actor_ids = do
    check (check_id (codes "Group ID") s.group_id)
    body ← lift (
        wrap_body (codes "memberships")
          (some (array (λ id. membership_entry_json (record { actor_id = id })) actor_ids)))
    result ←
        do_into w s.client (codes "PUT") (base_path s) none body
          (dec_struct membership_actor_ids_fields) zero_membership_actor_ids
    pure result.actor_ids

  unfoldable pub patch : List Str → List Str → M (List Str)
  unfolding check_id base_path wrap_body membership_patch_body_json do_into
      membership_actor_ids_fields
  patch add remove = do
    check (check_id (codes "Group ID") s.group_id)
    body ← lift (
        wrap_body (codes "memberships")
          (some (membership_patch_body_json (record { add = add; remove = remove }))))
    result ←
        do_into w s.client (codes "PATCH") (base_path s) none body
          (dec_struct membership_actor_ids_fields) zero_membership_actor_ids
    pure result.actor_ids
