-- ===== src/PoolMembers/Types.antt =====
-- pool_members.go: the values it exchanges with the API, decoded and encoded field by field.
use firezone_go.Prelude.{List, [], ◌++◌, Option, none, some, Str, codes}
use firezone_go.Go.Json.{Json, str, Fields}
use firezone_go.Go.Json.Decode.{dec_string, dec_pointer, dec_list, get_field, ◌>>=◌}
use firezone_go.Go.Json.Encode.{member, omit_empty, object}
use firezone_go.Go.Time.{Time, dec_time}

pub record PoolMember : Type 0 where
  pub id : Str
  pub name : Str
  pub last_seen_at : Option Time

abbrev pub zero_pool_member : PoolMember
zero_pool_member = record { id = []; name = []; last_seen_at = none }

unfoldable pub pool_member_fields : Fields → PoolMember → Option PoolMember
unfolding get_field dec_pointer dec_string dec_time
pool_member_fields fs r = do
  id ← get_field (codes "id") dec_string fs r.id
  name ← get_field (codes "name") dec_string fs r.name
  last_seen_at ← get_field (codes "last_seen_at") (dec_pointer dec_time []) fs r.last_seen_at
  some (record { id = id; name = name; last_seen_at = last_seen_at })

pub record PoolMemberEntry : Type 0 where
  pub device_id : Str

unfoldable pub pool_member_entry_json : PoolMemberEntry → Json
pool_member_entry_json r = object (member (codes "device_id") (str r.device_id))

pub record PoolMemberPatchBody : Type 0 where
  pub add : List Str
  pub remove : List Str

unfoldable pub pool_member_patch_body_json : PoolMemberPatchBody → Json
pool_member_patch_body_json r =
    object (omit_empty (codes "add") str r.add ++ omit_empty (codes "remove") str r.remove)

pub record PoolMemberDeviceIds : Type 0 where
  pub device_ids : List Str

abbrev pub zero_pool_member_device_ids : PoolMemberDeviceIds
zero_pool_member_device_ids = record { device_ids = [] }

unfoldable pub pool_member_device_ids_fields :
    Fields → PoolMemberDeviceIds → Option PoolMemberDeviceIds
unfolding get_field dec_list
pool_member_device_ids_fields fs r = do
  device_ids ← get_field (codes "device_ids") (dec_list dec_string []) fs r.device_ids
  some (record { device_ids = device_ids })
