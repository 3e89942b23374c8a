-- ===== src/Groups/Types.antt =====
-- groups.go: the values it exchanges with the API, decoded and encoded field by field.
use firezone_go.Prelude.{Bool, not, [], Option, none, some, Str, codes, str_eq}
use firezone_go.Prelude.Int.{pos}
use firezone_go.Go.Json.{Json, str, Fields}
use firezone_go.Go.Json.Decode.{dec_string, dec_pointer, get_field, ◌>>=◌}
use firezone_go.Go.Json.Encode.{member, omit_string, object}
use firezone_go.Go.Time.{Time, dec_time}
use firezone_go.Query.{ListOptions}

pub record Group : Type 0 where
  pub id : Str
  pub name : Str
  pub email : Str
  pub entity_type : Str
  pub directory_id : Str
  pub idp_id : Str
  pub synced_at : Option Time
  pub inserted_at : Time
  pub updated_at : Time

abbrev pub zero_group : Group
zero_group = record {
  id = [];
  name = [];
  email = [];
  entity_type = [];
  directory_id = [];
  idp_id = [];
  synced_at = none;
  inserted_at = [];
  updated_at = [];
}

unfoldable pub group_fields : Fields → Group → Option Group
unfolding get_field dec_pointer dec_string dec_time
group_fields fs r = do
  id ← get_field (codes "id") dec_string fs r.id
  name ← get_field (codes "name") dec_string fs r.name
  email ← get_field (codes "email") dec_string fs r.email
  entity_type ← get_field (codes "entity_type") dec_string fs r.entity_type
  directory_id ← get_field (codes "directory_id") dec_string fs r.directory_id
  idp_id ← get_field (codes "idp_id") dec_string fs r.idp_id
  synced_at ← get_field (codes "synced_at") (dec_pointer dec_time []) fs r.synced_at
  inserted_at ← get_field (codes "inserted_at") dec_time fs r.inserted_at
  updated_at ← get_field (codes "updated_at") dec_time fs r.updated_at
  some (record {
    id = id;
    name = name;
    email = email;
    entity_type = entity_type;
    directory_id = directory_id;
    idp_id = idp_id;
    synced_at = synced_at;
    inserted_at = inserted_at;
    updated_at = updated_at;
  })

unfoldable pub is_synced : Group → Bool
is_synced g = not (str_eq g.directory_id (codes ""))

pub record CreateGroupRequest : Type 0 where
  pub name : Str

unfoldable pub create_group_request_json : CreateGroupRequest → Json
create_group_request_json r = object (member (codes "name") (str r.name))

pub record UpdateGroupRequest : Type 0 where
  pub name : Str

unfoldable pub update_group_request_json : UpdateGroupRequest → Json
update_group_request_json r = object (omit_string (codes "name") r.name)

pub record GroupListOptions : Type 0 where
  pub list_options : ListOptions
  pub name : Str
  pub directory_id : Option Str
  pub entity_type : Str

abbrev pub zero_group_list_options : GroupListOptions
zero_group_list_options = record {
  list_options = record { limit = pos 0; page_cursor = [] };
  name = [];
  directory_id = none;
  entity_type = [];
}
