-- ===== src/Policies/Toggle.antt =====
-- Disable and Enable of policies.go.
use firezone_go.Prelude.{true, false, none, some, Str, codes, [], ◌∷◌, ◌≡◌, refl}
use firezone_go.Calls.{wrap_body, do_into}
use firezone_go.Calls.Laws.{lift_ok}
use firezone_go.Errors.{ok}
use firezone_go.Go.Json.Decode.{dec_struct}
use firezone_go.Go.Json.Print.{print}
use firezone_go.Http.{World, Log, RequestBody, M}
use firezone_go.Path.{check_id, build_path}
use firezone_go.Policies.{PoliciesService, update, disable, enable, only_is_disabled}
use firezone_go.Policies.Types.{Policy, update_policy_request_json, policy_fields, zero_policy}

toggle_body :
    (wrap_body (codes "policy") (some (update_policy_request_json (only_is_disabled true)))
      ≡ ok (some (codes "{\"policy\":{\"is_disabled\":true}}")))
    × (wrap_body (codes "policy") (some (update_policy_request_json (only_is_disabled false)))
        ≡ ok (some (codes "{\"policy\":{\"is_disabled\":false}}")))
unfolding wrap_body update_policy_request_json print
toggle_body = (refl, refl)

abbrev pub patch : World → PoliciesService → Str → RequestBody → M Policy
patch w s id body =
    do_into w s.client (codes "PATCH") (build_path (codes "policies" ∷ id ∷ [])) none body
      (dec_struct policy_fields) zero_policy

-- With an accepted ID, `disable` is one PATCH of the Policy's path, whose body sets `is_disabled` to
-- true and names no other field; `enable` is the same with false.
toggle_policy_lem :
    (w : World) (s : PoliciesService) (id : Str) (log : Log)
    → check_id (codes "Policy ID") id ≡ none
    → (disable w s id log ≡ patch w s id (some (codes "{\"policy\":{\"is_disabled\":true}}")) log)
      × (enable w s id log ≡ patch w s id (some (codes "{\"policy\":{\"is_disabled\":false}}")) log)
unfolding disable enable update
toggle_policy_lem w s id log h = (
  rw h (lift_ok _ _ (patch w s id) log toggle_body.0),
  rw h (lift_ok _ _ (patch w s id) log toggle_body.1),
)
