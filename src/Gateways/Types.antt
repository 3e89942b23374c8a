-- ===== src/Gateways/Types.antt =====
-- gateways.go: the values it exchanges with the API, decoded and encoded field by field.
use firezone_go.Prelude.{Bool, true, false, [], Option, none, some, Str, codes}
use firezone_go.Prelude.Int.{pos}
use firezone_go.Go.Json.{Json, str, Fields}
use firezone_go.Go.Json.Decode.{dec_string, dec_bool, dec_pointer, get_field, ◌>>=◌}
use firezone_go.Go.Json.Encode.{member, omit_string, object}
use firezone_go.Go.Time.{Time, dec_time}
use firezone_go.Query.{ListOptions}

pub record Gateway : Type 0 where
  pub id : Str
  pub name : Str
  pub ipv4 : Str
  pub ipv6 : Str
  pub online : Bool
  pub gateway_token_id : Str
  pub rotated_at : Option Time

abbrev pub zero_gateway : Gateway
zero_gateway = record {
  id = [];
  name = [];
  ipv4 = [];
  ipv6 = [];
  online = false;
  gateway_token_id = [];
  rotated_at = none;
}

unfoldable pub gateway_fields : Fields → Gateway → Option Gateway
unfolding get_field dec_bool dec_pointer dec_string dec_time
gateway_fields fs r = do
  id ← get_field (codes "id") dec_string fs r.id
  name ← get_field (codes "name") dec_string fs r.name
  ipv4 ← get_field (codes "ipv4") dec_string fs r.ipv4
  ipv6 ← get_field (codes "ipv6") dec_string fs r.ipv6
  online ← get_field (codes "online") dec_bool fs r.online
  gateway_token_id ← get_field (codes "gateway_token_id") dec_string fs r.gateway_token_id
  rotated_at ← get_field (codes "rotated_at") (dec_pointer dec_time []) fs r.rotated_at
  some (record {
    id = id;
    name = name;
    ipv4 = ipv4;
    ipv6 = ipv6;
    online = online;
    gateway_token_id = gateway_token_id;
    rotated_at = rotated_at;
  })

unfoldable pub rotation_pending : Gateway → Bool
rotation_pending g = elim g.rotated_at [ none ↦ false | some t ↦ true ]

-- `Gateway` is embedded: its fields are read from the same object.
pub record ProvisionedGateway : Type 0 where
  pub gateway : Gateway
  pub token : Str

abbrev pub zero_provisioned_gateway : ProvisionedGateway
zero_provisioned_gateway = record { gateway = zero_gateway; token = [] }

unfoldable pub provisioned_gateway_fields : Fields → ProvisionedGateway → Option ProvisionedGateway
unfolding gateway_fields get_field dec_string
provisioned_gateway_fields fs r = do
  gateway ← gateway_fields fs r.gateway
  token ← get_field (codes "token") dec_string fs r.token
  some (record { gateway = gateway; token = token })

pub record ProvisionGatewayRequest : Type 0 where
  pub name : Str

unfoldable pub provision_gateway_request_json : ProvisionGatewayRequest → Json
provision_gateway_request_json r = object (omit_string (codes "name") r.name)

pub record RotatedGatewayToken : Type 0 where
  pub id : Str
  pub token : Str

abbrev pub zero_rotated_gateway_token : RotatedGatewayToken
zero_rotated_gateway_token = record { id = []; token = [] }

unfoldable pub rotated_gateway_token_fields :
    Fields → RotatedGatewayToken → Option RotatedGatewayToken
unfolding get_field dec_string
rotated_gateway_token_fields fs r = do
  id ← get_field (codes "id") dec_string fs r.id
  token ← get_field (codes "token") dec_string fs r.token
  some (record { id = id; token = token })

pub record UpdateGatewayRequest : Type 0 where
  pub name : Str

unfoldable pub update_gateway_request_json : UpdateGatewayRequest → Json
update_gateway_request_json r = object (member (codes "name") (str r.name))

pub record GatewayListOptions : Type 0 where
  pub list_options : ListOptions
  pub name : Str
  pub ipv4 : Str
  pub ipv6 : Str

abbrev pub zero_gateway_list_options : GatewayListOptions
zero_gateway_list_options = record {
  list_options = record { limit = pos 0; page_cursor = [] };
  name = [];
  ipv4 = [];
  ipv6 = [];
}
