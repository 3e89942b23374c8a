-- ===== src/Actors/Patch.antt =====
-- What the API reads of the body of an update of an Actor, field by field.
use firezone_go.Prelude.{codes, option_map, ◌≡◌, refl, ap, ◌∙◌, ◌++◌}
use firezone_go.Go.Json.{str, bool}
use firezone_go.Go.Json.Encode.{Members, omit_string, omit_nil}
use firezone_go.Null.{marshal_null}
use firezone_go.Null.Fields.{
  look, past_string, past_nil, last_nil, stated, at_string, at_nil, at_last, field_list-fields,
  field_of, three_state, three_state_lem,
}
use firezone_go.Actors.Types.{UpdateActorRequest, update_actor_request_json}

abbrev update_actor_request_members : UpdateActorRequest → Members
update_actor_request_members r =
    omit_string (codes "name") r.name
    ++ (omit_string (codes "type") r.type
        ++ (omit_nil (codes "email") (marshal_null str) r.email
            ++ (omit_nil (codes "allow_email_otp_sign_in") bool r.allow_email_otp_sign_in
                ++ omit_nil (codes "is_disabled") bool r.is_disabled)))

update_actor_request_name_lem :
    (r : UpdateActorRequest) → field_of (codes "name") (update_actor_request_json r) ≡ stated r.name
unfolding update_actor_request_json
update_actor_request_name_lem r =
    ap (look (codes "name")) (field_list-fields (update_actor_request_members r))
    ∙ at_string _ r.name _ refl (
        past_string _ _ r.type _ refl
        ∙ past_nil _ _ _ r.email _ refl
        ∙ past_nil _ _ _ r.allow_email_otp_sign_in _ refl
        ∙ last_nil _ _ _ r.is_disabled refl)

update_actor_request_type_lem :
    (r : UpdateActorRequest) → field_of (codes "type") (update_actor_request_json r) ≡ stated r.type
unfolding update_actor_request_json
update_actor_request_type_lem r =
    ap (look (codes "type")) (field_list-fields (update_actor_request_members r))
    ∙ past_string _ _ r.name _ refl
    ∙ at_string _ r.type _ refl (
        past_nil _ _ _ r.email _ refl
        ∙ past_nil _ _ _ r.allow_email_otp_sign_in _ refl
        ∙ last_nil _ _ _ r.is_disabled refl)

update_actor_request_email_lem :
    (r : UpdateActorRequest)
    → field_of (codes "email") (update_actor_request_json r) ≡ three_state r.email
unfolding update_actor_request_json
update_actor_request_email_lem r =
    ap (look (codes "email")) (field_list-fields (update_actor_request_members r))
    ∙ past_string _ _ r.name _ refl
    ∙ past_string _ _ r.type _ refl
    ∙ at_nil _ (marshal_null str) r.email _ refl
        (past_nil _ _ _ r.allow_email_otp_sign_in _ refl ∙ last_nil _ _ _ r.is_disabled refl)
    ∙ three_state_lem r.email

update_actor_request_allow_email_otp_sign_in_lem :
    (r : UpdateActorRequest)
    → field_of (codes "allow_email_otp_sign_in") (update_actor_request_json r)
      ≡ option_map bool r.allow_email_otp_sign_in
unfolding update_actor_request_json
update_actor_request_allow_email_otp_sign_in_lem r =
    ap (look (codes "allow_email_otp_sign_in")) (field_list-fields (update_actor_request_members r))
    ∙ past_string _ _ r.name _ refl
    ∙ past_string _ _ r.type _ refl
    ∙ past_nil _ _ _ r.email _ refl
    ∙ at_nil _ bool r.allow_email_otp_sign_in _ refl (last_nil _ _ _ r.is_disabled refl)

update_actor_request_is_disabled_lem :
    (r : UpdateActorRequest)
    → field_of (codes "is_disabled") (update_actor_request_json r) ≡ option_map bool r.is_disabled
unfolding update_actor_request_json
update_actor_request_is_disabled_lem r =
    ap (look (codes "is_disabled")) (field_list-fields (update_actor_request_members r))
    ∙ past_string _ _ r.name _ refl
    ∙ past_string _ _ r.type _ refl
    ∙ past_nil _ _ _ r.email _ refl
    ∙ past_nil _ _ _ r.allow_email_otp_sign_in _ refl
    ∙ at_last _ bool r.is_disabled refl

-- The body of an update of an Actor says of each field what the request says. A nullable field is left
-- out, null or its string for a nil pointer, `clear` and `set`; an empty string is left out; a nil
-- pointer leaves out its field, and any other is sent, whatever it points to.
update_actor_request_json_lem :
    (r : UpdateActorRequest)
    → let body = update_actor_request_json r in
      (field_of (codes "name") body ≡ stated r.name)
      × (field_of (codes "type") body ≡ stated r.type)
      × (field_of (codes "email") body ≡ three_state r.email)
      × (field_of (codes "allow_email_otp_sign_in") body
          ≡ option_map bool r.allow_email_otp_sign_in)
      × (field_of (codes "is_disabled") body ≡ option_map bool r.is_disabled)
update_actor_request_json_lem r = (
  update_actor_request_name_lem r,
  update_actor_request_type_lem r,
  update_actor_request_email_lem r,
  update_actor_request_allow_email_otp_sign_in_lem r,
  update_actor_request_is_disabled_lem r,
)
