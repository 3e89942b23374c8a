-- ===== src/Resources/Types.antt =====
-- resources.go: the values it exchanges with the API, decoded and encoded field by field.
use firezone_go.Prelude.{List, [], ◌++◌, Option, some, Str, codes}
use firezone_go.Prelude.Int.{pos}
use firezone_go.Go.Json.{Json, str, Fields}
use firezone_go.Go.Json.Decode.{dec_string, dec_list, dec_struct, get_field, ◌>>=◌}
use firezone_go.Go.Json.Encode.{member, omit_string, omit_nil, omit_empty, nil_array, object}
use firezone_go.Null.{Null, marshal_null}
use firezone_go.Query.{ListOptions}

abbrev pub ResourceType : Type 0
ResourceType = Str

abbrev pub resource_type_cidr : ResourceType
resource_type_cidr = codes "cidr"

abbrev pub resource_type_ip : ResourceType
resource_type_ip = codes "ip"

abbrev pub resource_type_dns : ResourceType
resource_type_dns = codes "dns"

abbrev pub resource_type_static_device_pool : ResourceType
resource_type_static_device_pool = codes "static_device_pool"

abbrev pub IpStack : Type 0
IpStack = Str

abbrev pub ip_stack_ipv4_only : IpStack
ip_stack_ipv4_only = codes "ipv4_only"

abbrev pub ip_stack_ipv6_only : IpStack
ip_stack_ipv6_only = codes "ipv6_only"

abbrev pub ip_stack_dual : IpStack
ip_stack_dual = codes "dual"

abbrev pub FilterProtocol : Type 0
FilterProtocol = Str

abbrev pub filter_protocol_tcp : FilterProtocol
filter_protocol_tcp = codes "tcp"

abbrev pub filter_protocol_udp : FilterProtocol
filter_protocol_udp = codes "udp"

abbrev pub filter_protocol_icmp : FilterProtocol
filter_protocol_icmp = codes "icmp"

pub record Filter : Type 0 where
  pub protocol : FilterProtocol
  pub ports : List Str

abbrev pub zero_filter : Filter
zero_filter = record { protocol = []; ports = [] }

unfoldable pub filter_fields : Fields → Filter → Option Filter
unfolding get_field dec_list dec_string
filter_fields fs r = do
  protocol ← get_field (codes "protocol") dec_string fs r.protocol
  ports ← get_field (codes "ports") (dec_list dec_string []) fs r.ports
  some (record { protocol = protocol; ports = ports })

unfoldable pub filter_json : Filter → Json
filter_json r =
    object (member (codes "protocol") (str r.protocol) ++ omit_empty (codes "ports") str r.ports)

pub record Resource : Type 0 where
  pub id : Str
  pub name : Str
  pub address : Str
  pub address_description : Str
  pub type : ResourceType
  pub ip_stack : IpStack
  pub site_id : Str
  pub filters : List Filter

abbrev pub zero_resource : Resource
zero_resource = record {
  id = [];
  name = [];
  address = [];
  address_description = [];
  type = [];
  ip_stack = [];
  site_id = [];
  filters = [];
}

unfoldable pub resource_fields : Fields → Resource → Option Resource
unfolding get_field dec_list dec_string dec_struct filter_fields
resource_fields fs r = do
  id ← get_field (codes "id") dec_string fs r.id
  name ← get_field (codes "name") dec_string fs r.name
  address ← get_field (codes "address") dec_string fs r.address
  address_description ← get_field (codes "address_description") dec_string fs r.address_description
  type ← get_field (codes "type") dec_string fs r.type
  ip_stack ← get_field (codes "ip_stack") dec_string fs r.ip_stack
  site_id ← get_field (codes "site_id") dec_string fs r.site_id
  filters ←
      get_field (codes "filters") (dec_list (dec_struct filter_fields) zero_filter) fs r.filters
  some (record {
    id = id;
    name = name;
    address = address;
    address_description = address_description;
    type = type;
    ip_stack = ip_stack;
    site_id = site_id;
    filters = filters;
  })

pub record CreateResourceRequest : Type 0 where
  pub name : Str
  pub type : ResourceType
  pub address : Str
  pub address_description : Str
  pub ip_stack : IpStack
  pub site_id : Str
  pub filters : List Filter

unfoldable pub create_resource_request_json : CreateResourceRequest → Json
create_resource_request_json r = object (
    member (codes "name") (str r.name)
    ++ (member (codes "type") (str r.type)
        ++ (omit_string (codes "address") r.address
            ++ (omit_string (codes "address_description") r.address_description
                ++ (omit_string (codes "ip_stack") r.ip_stack
                    ++ (omit_string (codes "site_id") r.site_id
                        ++ omit_empty (codes "filters") filter_json r.filters))))))

pub record UpdateResourceRequest : Type 0 where
  pub name : Str
  pub type : ResourceType
  pub address : Option (Null Str)
  pub address_description : Option (Null Str)
  pub ip_stack : Option (Null IpStack)
  pub site_id : Option (Null Str)
  pub filters : Option (Option (List Filter))

unfoldable pub update_resource_request_json : UpdateResourceRequest → Json
unfolding marshal_null
update_resource_request_json r = object (
    omit_string (codes "name") r.name
    ++ (omit_string (codes "type") r.type
        ++ (omit_nil (codes "address") (marshal_null str) r.address
            ++ (omit_nil (codes "address_description") (marshal_null str) r.address_description
                ++ (omit_nil (codes "ip_stack") (marshal_null str) r.ip_stack
                    ++ (omit_nil (codes "site_id") (marshal_null str) r.site_id
                        ++ omit_nil (codes "filters") (nil_array filter_json) r.filters))))))

pub record ResourceListOptions : Type 0 where
  pub list_options : ListOptions
  pub name : Str
  pub type : ResourceType
  pub site_id : Str
  pub address : Str
  pub ip_stack : IpStack

abbrev pub zero_resource_list_options : ResourceListOptions
zero_resource_list_options = record {
  list_options = record { limit = pos 0; page_cursor = [] };
  name = [];
  type = [];
  site_id = [];
  address = [];
  ip_stack = [];
}
