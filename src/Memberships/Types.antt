-- ===== src/Memberships/Types.antt =====
-- memberships.go: the values it exchanges with the API, decoded and encoded field by field.
use firezone_go.Prelude.{List, [], ◌++◌, Option, some, Str, codes}
use firezone_go.Go.Json.{Json, str, Fields}
use firezone_go.Go.Json.Decode.{dec_string, dec_list, get_field, ◌>>=◌}
use firezone_go.Go.Json.Encode.{member, omit_empty, object}
use firezone_go.Actors.Types.{ActorType}

pub record GroupMember : Type 0 where
  pub id : Str
  pub name : Str
  pub type : ActorType

abbrev pub zero_group_member : GroupMember
zero_group_member = record { id = []; name = []; type = [] }

unfoldable pub group_member_fields : Fields → GroupMember → Option GroupMember
unfolding get_field dec_string
group_member_fields fs r = do
  id ← get_field (codes "id") dec_string fs r.id
  name ← get_field (codes "name") dec_string fs r.name
  type ← get_field (codes "type") dec_string fs r.type
  some (record { id = id; name = name; type = type })

pub record MembershipEntry : Type 0 where
  pub actor_id : Str

unfoldable pub membership_entry_json : MembershipEntry → Json
membership_entry_json r = object (member (codes "actor_id") (str r.actor_id))

pub record MembershipPatchBody : Type 0 where
  pub add : List Str
  pub remove : List Str

unfoldable pub membership_patch_body_json : MembershipPatchBody → Json
membership_patch_body_json r =
    object (omit_empty (codes "add") str r.add ++ omit_empty (codes "remove") str r.remove)

pub record MembershipActorIds : Type 0 where
  pub actor_ids : List Str

abbrev pub zero_membership_actor_ids : MembershipActorIds
zero_membership_actor_ids = record { actor_ids = [] }

unfoldable pub membership_actor_ids_fields : Fields → MembershipActorIds → Option MembershipActorIds
unfolding get_field dec_list
membership_actor_ids_fields fs r = do
  actor_ids ← get_field (codes "actor_ids") (dec_list dec_string []) fs r.actor_ids
  some (record { actor_ids = actor_ids })
