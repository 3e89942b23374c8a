-- ===== src/Policies/Types.antt =====
-- policies.go: the values it exchanges with the API, decoded and encoded field by field.
use firezone_go.Prelude.{Bool, false, List, [], ◌++◌, Option, none, some, Str, codes}
use firezone_go.Prelude.Int.{pos}
use firezone_go.Go.Json.{Json, str, bool, Fields}
use firezone_go.Go.Json.Decode.{
  dec_string, dec_bool, dec_pointer, dec_list, dec_struct, get_field, ◌>>=◌,
}
use firezone_go.Go.Json.Encode.{member, omit_string, omit_nil, omit_empty, nil_array, object}
use firezone_go.Null.{Null, marshal_null}
use firezone_go.Query.{ListOptions}

abbrev pub ConditionProperty : Type 0
ConditionProperty = Str

abbrev pub condition_property_remote_ip_location_region : ConditionProperty
condition_property_remote_ip_location_region = codes "remote_ip_location_region"

abbrev pub condition_property_remote_ip : ConditionProperty
condition_property_remote_ip = codes "remote_ip"

abbrev pub condition_property_auth_provider_id : ConditionProperty
condition_property_auth_provider_id = codes "auth_provider_id"

abbrev pub condition_property_current_utc_datetime : ConditionProperty
condition_property_current_utc_datetime = codes "current_utc_datetime"

abbrev pub condition_property_client_verified : ConditionProperty
condition_property_client_verified = codes "client_verified"

abbrev pub ConditionOperator : Type 0
ConditionOperator = Str

abbrev pub condition_operator_is_in : ConditionOperator
condition_operator_is_in = codes "is_in"

abbrev pub condition_operator_is_not_in : ConditionOperator
condition_operator_is_not_in = codes "is_not_in"

abbrev pub condition_operator_is_in_cidr : ConditionOperator
condition_operator_is_in_cidr = codes "is_in_cidr"

abbrev pub condition_operator_is_not_in_cidr : ConditionOperator
condition_operator_is_not_in_cidr = codes "is_not_in_cidr"

abbrev pub condition_operator_is_in_day_of_week_time_ranges : ConditionOperator
condition_operator_is_in_day_of_week_time_ranges = codes "is_in_day_of_week_time_ranges"

abbrev pub condition_operator_is : ConditionOperator
condition_operator_is = codes "is"

-- `values` is `none` when the slice is nil, which encodes as null. A decoded null is nil too.
pub record Condition : Type 0 where
  pub property : ConditionProperty
  pub operator : ConditionOperator
  pub values : Option (List Str)

abbrev pub zero_condition : Condition
zero_condition = record { property = []; operator = []; values = none }

unfoldable pub condition_fields : Fields → Condition → Option Condition
unfolding get_field dec_string dec_list dec_pointer
condition_fields fs r = do
  property ← get_field (codes "property") dec_string fs r.property
  operator ← get_field (codes "operator") dec_string fs r.operator
  values ← get_field (codes "values") (dec_pointer (dec_list dec_string []) []) fs r.values
  some (record { property = property; operator = operator; values = values })

unfoldable pub condition_json : Condition → Json
condition_json r = object (
    member (codes "property") (str r.property)
    ++ (member (codes "operator") (str r.operator)
        ++ member (codes "values") (nil_array str r.values)))

pub record Policy : Type 0 where
  pub id : Str
  pub group_id : Str
  pub resource_id : Str
  pub description : Str
  pub flow_log_uploads_enabled : Bool
  pub is_disabled : Bool
  pub conditions : List Condition

abbrev pub zero_policy : Policy
zero_policy = record {
  id = [];
  group_id = [];
  resource_id = [];
  description = [];
  flow_log_uploads_enabled = false;
  is_disabled = false;
  conditions = [];
}

unfoldable pub policy_fields : Fields → Policy → Option Policy
unfolding get_field condition_fields dec_bool dec_list dec_string dec_struct
policy_fields fs r = do
  id ← get_field (codes "id") dec_string fs r.id
  group_id ← get_field (codes "group_id") dec_string fs r.group_id
  resource_id ← get_field (codes "resource_id") dec_string fs r.resource_id
  description ← get_field (codes "description") dec_string fs r.description
  flow_log_uploads_enabled ←
      get_field (codes "flow_log_uploads_enabled") dec_bool fs r.flow_log_uploads_enabled
  is_disabled ← get_field (codes "is_disabled") dec_bool fs r.is_disabled
  conditions ←
      get_field (codes "conditions") (dec_list (dec_struct condition_fields) zero_condition) fs
        r.conditions
  some (record {
    id = id;
    group_id = group_id;
    resource_id = resource_id;
    description = description;
    flow_log_uploads_enabled = flow_log_uploads_enabled;
    is_disabled = is_disabled;
    conditions = conditions;
  })

pub record CreatePolicyRequest : Type 0 where
  pub group_id : Str
  pub resource_id : Str
  pub description : Str
  pub flow_log_uploads_enabled : Option Bool
  pub conditions : List Condition

unfoldable pub create_policy_request_json : CreatePolicyRequest → Json
create_policy_request_json r = object (
    member (codes "group_id") (str r.group_id)
    ++ (member (codes "resource_id") (str r.resource_id)
        ++ (omit_string (codes "description") r.description
            ++ (omit_nil (codes "flow_log_uploads_enabled") bool r.flow_log_uploads_enabled
                ++ omit_empty (codes "conditions") condition_json r.conditions))))

-- A nil pointer is `none`. `conditions` points to a slice, which may itself be nil.
pub record UpdatePolicyRequest : Type 0 where
  pub group_id : Str
  pub resource_id : Str
  pub description : Option (Null Str)
  pub flow_log_uploads_enabled : Option Bool
  pub is_disabled : Option Bool
  pub conditions : Option (Option (List Condition))

unfoldable pub update_policy_request_json : UpdatePolicyRequest → Json
unfolding marshal_null
update_policy_request_json r = object (
    omit_string (codes "group_id") r.group_id
    ++ (omit_string (codes "resource_id") r.resource_id
        ++ (omit_nil (codes "description") (marshal_null str) r.description
            ++ (omit_nil (codes "flow_log_uploads_enabled") bool r.flow_log_uploads_enabled
                ++ (omit_nil (codes "is_disabled") bool r.is_disabled
                    ++ omit_nil (codes "conditions") (nil_array condition_json) r.conditions)))))

pub record PolicyListOptions : Type 0 where
  pub list_options : ListOptions
  pub group_id : Str
  pub resource_id : Str

abbrev pub zero_policy_list_options : PolicyListOptions
zero_policy_list_options = record {
  list_options = record { limit = pos 0; page_cursor = [] };
  group_id = [];
  resource_id = [];
}
