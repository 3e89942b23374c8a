-- ===== src/Actors/Types.antt =====
-- actors.go: the values it exchanges with the API, decoded and encoded field by field.
use firezone_go.Prelude.{Bool, false, not, [], ◌++◌, Option, none, some, Str, codes, str_eq}
use firezone_go.Prelude.Int.{pos}
use firezone_go.Go.Json.{Json, str, bool, Fields}
use firezone_go.Go.Json.Decode.{dec_string, dec_bool, dec_pointer, get_field, ◌>>=◌}
use firezone_go.Go.Json.Encode.{member, omit_string, omit_nil, object}
use firezone_go.Go.Time.{Time, dec_time}
use firezone_go.Null.{Null, marshal_null}
use firezone_go.Query.{ListOptions}

abbrev pub ActorType : Type 0
ActorType = Str

abbrev pub actor_type_account_user : ActorType
actor_type_account_user = codes "account_user"

abbrev pub actor_type_account_admin_user : ActorType
actor_type_account_admin_user = codes "account_admin_user"

abbrev pub actor_type_service_account : ActorType
actor_type_service_account = codes "service_account"

pub record Actor : Type 0 where
  pub id : Str
  pub name : Str
  pub type : ActorType
  pub email : Str
  pub allow_email_otp_sign_in : Bool
  pub is_disabled : Bool
  pub last_seen_at : Option Time
  pub created_by_directory_id : Str
  pub inserted_at : Time
  pub updated_at : Time

abbrev pub zero_actor : Actor
zero_actor = record {
  id = [];
  name = [];
  type = [];
  email = [];
  allow_email_otp_sign_in = false;
  is_disabled = false;
  last_seen_at = none;
  created_by_directory_id = [];
  inserted_at = [];
  updated_at = [];
}

unfoldable pub actor_fields : Fields → Actor → Option Actor
unfolding get_field dec_bool dec_pointer dec_string dec_time
actor_fields fs r = do
  id ← get_field (codes "id") dec_string fs r.id
  name ← get_field (codes "name") dec_string fs r.name
  type ← get_field (codes "type") dec_string fs r.type
  email ← get_field (codes "email") dec_string fs r.email
  allow_email_otp_sign_in ←
      get_field (codes "allow_email_otp_sign_in") dec_bool fs r.allow_email_otp_sign_in
  is_disabled ← get_field (codes "is_disabled") dec_bool fs r.is_disabled
  last_seen_at ← get_field (codes "last_seen_at") (dec_pointer dec_time []) fs r.last_seen_at
  created_by_directory_id ←
      get_field (codes "created_by_directory_id") dec_string fs r.created_by_directory_id
  inserted_at ← get_field (codes "inserted_at") dec_time fs r.inserted_at
  updated_at ← get_field (codes "updated_at") dec_time fs r.updated_at
  some (record {
    id = id;
    name = name;
    type = type;
    email = email;
    allow_email_otp_sign_in = allow_email_otp_sign_in;
    is_disabled = is_disabled;
    last_seen_at = last_seen_at;
    created_by_directory_id = created_by_directory_id;
    inserted_at = inserted_at;
    updated_at = updated_at;
  })

unfoldable pub is_synced : Actor → Bool
is_synced a = not (str_eq a.created_by_directory_id (codes ""))

pub record CreateActorRequest : Type 0 where
  pub name : Str
  pub type : ActorType
  pub email : Str
  pub allow_email_otp_sign_in : Option Bool

unfoldable pub create_actor_request_json : CreateActorRequest → Json
create_actor_request_json r = object (
    member (codes "name") (str r.name)
    ++ (member (codes "type") (str r.type)
        ++ (omit_string (codes "email") r.email
            ++ omit_nil (codes "allow_email_otp_sign_in") bool r.allow_email_otp_sign_in)))

pub record UpdateActorRequest : Type 0 where
  pub name : Str
  pub type : ActorType
  pub email : Option (Null Str)
  pub allow_email_otp_sign_in : Option Bool
  pub is_disabled : Option Bool

unfoldable pub update_actor_request_json : UpdateActorRequest → Json
unfolding marshal_null
update_actor_request_json r = object (
    omit_string (codes "name") r.name
    ++ (omit_string (codes "type") r.type
        ++ (omit_nil (codes "email") (marshal_null str) r.email
            ++ (omit_nil (codes "allow_email_otp_sign_in") bool r.allow_email_otp_sign_in
                ++ omit_nil (codes "is_disabled") bool r.is_disabled))))

pub record ActorListOptions : Type 0 where
  pub list_options : ListOptions
  pub name : Str
  pub email : Str
  pub type : ActorType

abbrev pub zero_actor_list_options : ActorListOptions
zero_actor_list_options = record {
  list_options = record { limit = pos 0; page_cursor = [] };
  name = [];
  email = [];
  type = [];
}
