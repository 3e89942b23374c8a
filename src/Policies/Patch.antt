-- ===== src/Policies/Patch.antt =====
-- What the API reads of the body of an update of a Policy, field by field.
use firezone_go.Prelude.{false, ◌++◌, none, Str, codes, str_eq, option_map, ◌≡◌, refl, ap, ◌∙◌}
use firezone_go.Go.Json.{str, bool}
use firezone_go.Go.Json.Encode.{Members, omit_string, omit_nil, nil_array}
use firezone_go.Null.{marshal_null}
use firezone_go.Null.Fields.{
  look, past_string, past_nil, last_nil, stated, at_string, at_nil, at_last, field_list-fields,
  field_of, three_state, three_state_lem,
}
use firezone_go.Policies.Types.{UpdatePolicyRequest, update_policy_request_json, condition_json}

module _ (r : UpdatePolicyRequest) where
  abbrev from_conditions : Members
  from_conditions = omit_nil (codes "conditions") (nil_array condition_json) r.conditions

  abbrev from_is_disabled : Members
  from_is_disabled = omit_nil (codes "is_disabled") bool r.is_disabled ++ from_conditions

  abbrev from_uploads : Members
  from_uploads =
      omit_nil (codes "flow_log_uploads_enabled") bool r.flow_log_uploads_enabled
      ++ from_is_disabled

  abbrev from_description : Members
  from_description = omit_nil (codes "description") (marshal_null str) r.description ++ from_uploads

  abbrev from_resource_id : Members
  from_resource_id = omit_string (codes "resource_id") r.resource_id ++ from_description

  beyond_uploads :
      (k : Str)
      → str_eq (codes "is_disabled") k ≡ false
      → str_eq (codes "conditions") k ≡ false
      → look k from_is_disabled ≡ none
  beyond_uploads k h h' = past_nil k _ _ r.is_disabled _ h ∙ last_nil k _ _ r.conditions h'

  beyond_description :
      (k : Str)
      → str_eq (codes "flow_log_uploads_enabled") k ≡ false
      → str_eq (codes "is_disabled") k ≡ false
      → str_eq (codes "conditions") k ≡ false
      → look k from_uploads ≡ none
  beyond_description k h h' h'' =
      past_nil k _ _ r.flow_log_uploads_enabled _ h ∙ beyond_uploads k h' h''

  -- The members in front of the description, for a key that is not theirs.
  from_start :
      (k : Str)
      → str_eq (codes "group_id") k ≡ false
      → str_eq (codes "resource_id") k ≡ false
      → look k (omit_string (codes "group_id") r.group_id ++ from_resource_id)
        ≡ look k from_description
  from_start k h h' = past_string k _ r.group_id _ h ∙ past_string k _ r.resource_id _ h'

-- The body of an update of a Policy says of each field what the request says. `description` is left
-- out, null or the string for a nil pointer, `clear` and `set`; an empty ID is left out; a nil
-- pointer leaves out its field, and any other is sent, false and an empty or nil slice included.
pub update_policy_request_json_lem :
    (r : UpdatePolicyRequest)
    → let body = update_policy_request_json r in
      (field_of (codes "group_id") body ≡ stated r.group_id)
      × (field_of (codes "resource_id") body ≡ stated r.resource_id)
      × (field_of (codes "description") body ≡ three_state r.description)
      × (field_of (codes "flow_log_uploads_enabled") body
          ≡ option_map bool r.flow_log_uploads_enabled)
      × (field_of (codes "is_disabled") body ≡ option_map bool r.is_disabled)
      × (field_of (codes "conditions") body ≡ option_map (nil_array condition_json) r.conditions)
unfolding update_policy_request_json
update_policy_request_json_lem r =
    let start =
      field_list-fields (omit_string (codes "group_id") r.group_id ++ from_resource_id r) in
    let read = λ (k : Str). ap (look k) start in
    (
      read (codes "group_id")
          ∙ at_string _ r.group_id _ refl (
              past_string _ _ r.resource_id _ refl
              ∙ past_nil _ _ _ r.description _ refl
              ∙ beyond_description r _ refl refl refl),
      read (codes "resource_id")
          ∙ past_string _ _ r.group_id _ refl
          ∙ at_string _ r.resource_id _ refl
              (past_nil _ _ _ r.description _ refl ∙ beyond_description r _ refl refl refl),
      read (codes "description")
          ∙ from_start r _ refl refl
          ∙ at_nil _ (marshal_null str) r.description _ refl (beyond_description r _ refl refl refl)
          ∙ three_state_lem r.description,
      read (codes "flow_log_uploads_enabled")
          ∙ from_start r _ refl refl
          ∙ past_nil _ _ _ r.description _ refl
          ∙ at_nil _ bool r.flow_log_uploads_enabled _ refl (beyond_uploads r _ refl refl),
      read (codes "is_disabled")
          ∙ from_start r _ refl refl
          ∙ past_nil _ _ _ r.description _ refl
          ∙ past_nil _ _ _ r.flow_log_uploads_enabled _ refl
          ∙ at_nil _ bool r.is_disabled _ refl (last_nil _ _ _ r.conditions refl),
      read (codes "conditions")
          ∙ from_start r _ refl refl
          ∙ past_nil _ _ _ r.description _ refl
          ∙ past_nil _ _ _ r.flow_log_uploads_enabled _ refl
          ∙ past_nil _ _ _ r.is_disabled _ refl
          ∙ at_last _ (nil_array condition_json) r.conditions refl,
    )
