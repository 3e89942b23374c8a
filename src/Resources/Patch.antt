-- ===== src/Resources/Patch.antt =====
-- What the API reads of the body of an update of a Resource, field by field.
use firezone_go.Prelude.{codes, option_map, ◌≡◌, refl, ap, ◌∙◌, ◌++◌}
use firezone_go.Go.Json.{str}
use firezone_go.Go.Json.Encode.{Members, omit_string, omit_nil, nil_array}
use firezone_go.Null.{marshal_null}
use firezone_go.Null.Fields.{
  look, past_string, past_nil, last_nil, stated, at_string, at_nil, at_last, field_list-fields,
  field_of, three_state, three_state_lem,
}
use firezone_go.Resources.Types.{UpdateResourceRequest, update_resource_request_json, filter_json}

abbrev update_resource_request_members : UpdateResourceRequest → Members
update_resource_request_members r =
    omit_string (codes "name") r.name
    ++ (omit_string (codes "type") r.type
        ++ (omit_nil (codes "address") (marshal_null str) r.address
            ++ (omit_nil (codes "address_description") (marshal_null str) r.address_description
                ++ (omit_nil (codes "ip_stack") (marshal_null str) r.ip_stack
                    ++ (omit_nil (codes "site_id") (marshal_null str) r.site_id
                        ++ omit_nil (codes "filters") (nil_array filter_json) r.filters)))))

update_resource_request_name_lem :
    (r : UpdateResourceRequest)
    → field_of (codes "name") (update_resource_request_json r) ≡ stated r.name
unfolding update_resource_request_json
update_resource_request_name_lem r =
    ap (look (codes "name")) (field_list-fields (update_resource_request_members r))
    ∙ at_string _ r.name _ refl (
        past_string _ _ r.type _ refl
        ∙ past_nil _ _ _ r.address _ refl
        ∙ past_nil _ _ _ r.address_description _ refl
        ∙ past_nil _ _ _ r.ip_stack _ refl
        ∙ past_nil _ _ _ r.site_id _ refl
        ∙ last_nil _ _ _ r.filters refl)

update_resource_request_type_lem :
    (r : UpdateResourceRequest)
    → field_of (codes "type") (update_resource_request_json r) ≡ stated r.type
unfolding update_resource_request_json
update_resource_request_type_lem r =
    ap (look (codes "type")) (field_list-fields (update_resource_request_members r))
    ∙ past_string _ _ r.name _ refl
    ∙ at_string _ r.type _ refl (
        past_nil _ _ _ r.address _ refl
        ∙ past_nil _ _ _ r.address_description _ refl
        ∙ past_nil _ _ _ r.ip_stack _ refl
        ∙ past_nil _ _ _ r.site_id _ refl
        ∙ last_nil _ _ _ r.filters refl)

update_resource_request_address_lem :
    (r : UpdateResourceRequest)
    → field_of (codes "address") (update_resource_request_json r) ≡ three_state r.address
unfolding update_resource_request_json
update_resource_request_address_lem r =
    ap (look (codes "address")) (field_list-fields (update_resource_request_members r))
    ∙ past_string _ _ r.name _ refl
    ∙ past_string _ _ r.type _ refl
    ∙ at_nil _ (marshal_null str) r.address _ refl (
        past_nil _ _ _ r.address_description _ refl
        ∙ past_nil _ _ _ r.ip_stack _ refl
        ∙ past_nil _ _ _ r.site_id _ refl
        ∙ last_nil _ _ _ r.filters refl)
    ∙ three_state_lem r.address

update_resource_request_address_description_lem :
    (r : UpdateResourceRequest)
    → field_of (codes "address_description") (update_resource_request_json r)
      ≡ three_state r.address_description
unfolding update_resource_request_json
update_resource_request_address_description_lem r =
    ap (look (codes "address_description")) (field_list-fields (update_resource_request_members r))
    ∙ past_string _ _ r.name _ refl
    ∙ past_string _ _ r.type _ refl
    ∙ past_nil _ _ _ r.address _ refl
    ∙ at_nil _ (marshal_null str) r.address_description _ refl (
        past_nil _ _ _ r.ip_stack _ refl
        ∙ past_nil _ _ _ r.site_id _ refl
        ∙ last_nil _ _ _ r.filters refl)
    ∙ three_state_lem r.address_description

update_resource_request_ip_stack_lem :
    (r : UpdateResourceRequest)
    → field_of (codes "ip_stack") (update_resource_request_json r) ≡ three_state r.ip_stack
unfolding update_resource_request_json
update_resource_request_ip_stack_lem r =
    ap (look (codes "ip_stack")) (field_list-fields (update_resource_request_members r))
    ∙ past_string _ _ r.name _ refl
    ∙ past_string _ _ r.type _ refl
    ∙ past_nil _ _ _ r.address _ refl
    ∙ past_nil _ _ _ r.address_description _ refl
    ∙ at_nil _ (marshal_null str) r.ip_stack _ refl
        (past_nil _ _ _ r.site_id _ refl ∙ last_nil _ _ _ r.filters refl)
    ∙ three_state_lem r.ip_stack

update_resource_request_site_id_lem :
    (r : UpdateResourceRequest)
    → field_of (codes "site_id") (update_resource_request_json r) ≡ three_state r.site_id
unfolding update_resource_request_json
update_resource_request_site_id_lem r =
    ap (look (codes "site_id")) (field_list-fields (update_resource_request_members r))
    ∙ past_string _ _ r.name _ refl
    ∙ past_string _ _ r.type _ refl
    ∙ past_nil _ _ _ r.address _ refl
    ∙ past_nil _ _ _ r.address_description _ refl
    ∙ past_nil _ _ _ r.ip_stack _ refl
    ∙ at_nil _ (marshal_null str) r.site_id _ refl (last_nil _ _ _ r.filters refl)
    ∙ three_state_lem r.site_id

update_resource_request_filters_lem :
    (r : UpdateResourceRequest)
    → field_of (codes "filters") (update_resource_request_json r)
      ≡ option_map (nil_array filter_json) r.filters
unfolding update_resource_request_json
update_resource_request_filters_lem r =
    ap (look (codes "filters")) (field_list-fields (update_resource_request_members r))
    ∙ past_string _ _ r.name _ refl
    ∙ past_string _ _ r.type _ refl
    ∙ past_nil _ _ _ r.address _ refl
    ∙ past_nil _ _ _ r.address_description _ refl
    ∙ past_nil _ _ _ r.ip_stack _ refl
    ∙ past_nil _ _ _ r.site_id _ refl
    ∙ at_last _ (nil_array filter_json) r.filters refl

-- The body of an update of a Resource says of each field what the request says. A nullable field is left
-- out, null or its string for a nil pointer, `clear` and `set`; an empty string is left out; a nil
-- pointer leaves out its field, and any other is sent, whatever it points to.
pub update_resource_request_json_lem :
    (r : UpdateResourceRequest)
    → let body = update_resource_request_json r in
      (field_of (codes "name") body ≡ stated r.name)
      × (field_of (codes "type") body ≡ stated r.type)
      × (field_of (codes "address") body ≡ three_state r.address)
      × (field_of (codes "address_description") body ≡ three_state r.address_description)
      × (field_of (codes "ip_stack") body ≡ three_state r.ip_stack)
      × (field_of (codes "site_id") body ≡ three_state r.site_id)
      × (field_of (codes "filters") body ≡ option_map (nil_array filter_json) r.filters)
update_resource_request_json_lem r = (
  update_resource_request_name_lem r,
  update_resource_request_type_lem r,
  update_resource_request_address_lem r,
  update_resource_request_address_description_lem r,
  update_resource_request_ip_stack_lem r,
  update_resource_request_site_id_lem r,
  update_resource_request_filters_lem r,
)
