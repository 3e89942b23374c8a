-- ===== src/ClientDevices/Types.antt =====
-- clients.go: the values it exchanges with the API, decoded and encoded field by field.
use firezone_go.Prelude.{Bool, false, [], Option, none, some, Str, codes}
use firezone_go.Prelude.Int.{pos}
use firezone_go.Go.Json.{Json, str, Fields}
use firezone_go.Go.Json.Decode.{dec_string, dec_bool, dec_pointer, get_field, ◌>>=◌}
use firezone_go.Go.Json.Encode.{member, object}
use firezone_go.Go.Time.{Time, dec_time}
use firezone_go.Query.{ListOptions}

pub record ClientDevice : Type 0 where
  pub id : Str
  pub firezone_id : Str
  pub actor_id : Str
  pub name : Str
  pub ipv4 : Str
  pub ipv6 : Str
  pub online : Bool
  pub public_key : Str
  pub hostname : Str
  pub device_serial : Str
  pub device_uuid : Str
  pub verified_at : Option Time
  pub last_seen_at : Option Time
  pub last_seen_version : Str
  pub last_seen_remote_ip : Str
  pub created_at : Time
  pub updated_at : Time

abbrev pub zero_client_device : ClientDevice
zero_client_device = record {
  id = [];
  firezone_id = [];
  actor_id = [];
  name = [];
  ipv4 = [];
  ipv6 = [];
  online = false;
  public_key = [];
  hostname = [];
  device_serial = [];
  device_uuid = [];
  verified_at = none;
  last_seen_at = none;
  last_seen_version = [];
  last_seen_remote_ip = [];
  created_at = [];
  updated_at = [];
}

unfoldable pub client_device_fields : Fields → ClientDevice → Option ClientDevice
unfolding get_field dec_bool dec_pointer dec_string dec_time
client_device_fields fs r = do
  id ← get_field (codes "id") dec_string fs r.id
  firezone_id ← get_field (codes "firezone_id") dec_string fs r.firezone_id
  actor_id ← get_field (codes "actor_id") dec_string fs r.actor_id
  name ← get_field (codes "name") dec_string fs r.name
  ipv4 ← get_field (codes "ipv4") dec_string fs r.ipv4
  ipv6 ← get_field (codes "ipv6") dec_string fs r.ipv6
  online ← get_field (codes "online") dec_bool fs r.online
  public_key ← get_field (codes "public_key") dec_string fs r.public_key
  hostname ← get_field (codes "hostname") dec_string fs r.hostname
  device_serial ← get_field (codes "device_serial") dec_string fs r.device_serial
  device_uuid ← get_field (codes "device_uuid") dec_string fs r.device_uuid
  verified_at ← get_field (codes "verified_at") (dec_pointer dec_time []) fs r.verified_at
  last_seen_at ← get_field (codes "last_seen_at") (dec_pointer dec_time []) fs r.last_seen_at
  last_seen_version ← get_field (codes "last_seen_version") dec_string fs r.last_seen_version
  last_seen_remote_ip ← get_field (codes "last_seen_remote_ip") dec_string fs r.last_seen_remote_ip
  created_at ← get_field (codes "created_at") dec_time fs r.created_at
  updated_at ← get_field (codes "updated_at") dec_time fs r.updated_at
  some (record {
    id = id;
    firezone_id = firezone_id;
    actor_id = actor_id;
    name = name;
    ipv4 = ipv4;
    ipv6 = ipv6;
    online = online;
    public_key = public_key;
    hostname = hostname;
    device_serial = device_serial;
    device_uuid = device_uuid;
    verified_at = verified_at;
    last_seen_at = last_seen_at;
    last_seen_version = last_seen_version;
    last_seen_remote_ip = last_seen_remote_ip;
    created_at = created_at;
    updated_at = updated_at;
  })

pub record UpdateClientRequest : Type 0 where
  pub name : Str

unfoldable pub update_client_request_json : UpdateClientRequest → Json
update_client_request_json r = object (member (codes "name") (str r.name))

pub record ClientListOptions : Type 0 where
  pub list_options : ListOptions
  pub name : Str
  pub firezone_id : Str

abbrev pub zero_client_list_options : ClientListOptions
zero_client_list_options = record {
  list_options = record { limit = pos 0; page_cursor = [] };
  name = [];
  firezone_id = [];
}
