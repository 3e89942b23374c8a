-- ===== src/Policies/Served.antt =====
-- What the API reads of the request that changes a Policy.
use firezone_go.Prelude.{
  ℕ, suc, ◌≤◌, Bool, List, Option, none, some, Str, codes, option_map, ◌≡◌, ap, arith, All,
  All-append, IsBytes,
}
use mathlib.Core.Path.{subst}
use firezone_go.Calls.Requests.{Ready, Asks, sent_body}
use firezone_go.Calls.Served.{wrap_body_served}
use firezone_go.Go.Json.{Json, bool, str, obj, field, end}
use firezone_go.Go.Json.Encode.{nil_array}
use firezone_go.Go.Json.Parse.{parse}
use firezone_go.Go.Json.RoundTrip.{IsAscii, IsText}
use firezone_go.Go.Json.Texts.{
  AllOf, object-IsText, omit_string-AreMembers, omit_nil-AreMembers, nil_array-IsText,
}
use firezone_go.Http.{World, Log, Request}
use firezone_go.Null.{marshal_null}
use firezone_go.Null.Fields.{field_of, stated, three_state}
use firezone_go.Null.Texts.{IsAsciiNull, optional-IsText}
use firezone_go.Path.{check_id}
use firezone_go.Policies.{PoliciesService, update}
use firezone_go.Policies.Patch.{update_policy_request_json_lem}
use firezone_go.Policies.Requests.{one, update-Asks, sends-update}
use firezone_go.Policies.RoundTrip.{IsAsciiCondition, conditions-All}
use firezone_go.Policies.Types.{
  Condition, condition_json, UpdatePolicyRequest, update_policy_request_json,
}
use firezone_go.Retry.Trace.{sends}

-- The texts of the request are ASCII.
pub record IsAsciiUpdate (r : UpdatePolicyRequest) : Type 0 where
  pub group_id : IsAscii r.group_id
  pub resource_id : IsAscii r.resource_id
  pub description : IsAsciiNull r.description
  pub conditions : AllOf (AllOf (All IsAsciiCondition)) r.conditions

flag-IsText : (o : Option Bool) → AllOf (λ b. IsText (bool b)) o
unfolding IsText
flag-IsText none = tt
flag-IsText (some b) = tt

conditions-IsText :
    (o : Option (Option (List Condition)))
    → AllOf (AllOf (All IsAsciiCondition)) o
    → AllOf (λ cs. IsText (nil_array condition_json cs)) o
conditions-IsText none h = tt
conditions-IsText (some none) h = nil_array-IsText condition_json none tt
conditions-IsText (some (some cs)) h =
    nil_array-IsText condition_json (some cs) (conditions-All cs h)

update_policy_request-IsText :
    (r : UpdatePolicyRequest) → IsAsciiUpdate r → IsText (update_policy_request_json r)
unfolding update_policy_request_json
update_policy_request-IsText r h = object-IsText _ (
    All-append _ _ _
      (omit_string-AreMembers (codes "group_id") r.group_id (ground arith) h.group_id)
      (All-append _ _ _
        (omit_string-AreMembers (codes "resource_id") r.resource_id (ground arith) h.resource_id)
        (All-append _ _ _
          (omit_nil-AreMembers (codes "description") (marshal_null str) r.description (ground arith)
            (optional-IsText r.description h.description))
          (All-append _ _ _
            (omit_nil-AreMembers (codes "flow_log_uploads_enabled") bool r.flow_log_uploads_enabled
              (ground arith) (flag-IsText r.flow_log_uploads_enabled))
            (All-append _ _ _
              (omit_nil-AreMembers (codes "is_disabled") bool r.is_disabled (ground arith)
                (flag-IsText r.is_disabled))
              (omit_nil-AreMembers (codes "conditions") (nil_array condition_json) r.conditions
                (ground arith) (conditions-IsText r.conditions h.conditions)))))))

-- Changing a Policy sends PATCH of "policies" and the ID with one body, at least once and at most
-- `n + 1` times, and once if retries are disabled, and sends nothing else, whatever is answered. The
-- body parses to an object with the one key "policy", whose value says of each field what the request
-- says: an empty ID and a nil pointer are
-- left out, a cleared description is null, and all else is the value. The
-- client is ready with a budget of `n` retries, the ID is of bytes and accepted, the requests can be
-- built, and the texts of the request are ASCII.
pub update_policy_served :
    (w : World) (s : PoliciesService) (n : ℕ) (id : Str) (r : UpdatePolicyRequest) (log : Log)
    → Ready w s.client n
    → IsBytes id
    → IsAsciiUpdate r
    → check_id (codes "Policy ID") id ≡ none
    → ((req : Request) → w.refusal req ≡ none)
    → (text : Str) × (v : Json) × Asks s.client n
        (codes "PATCH")
        (one id)
        none
        (some text)
        log
        (update w s id (some r) log).1
      × (suc (sends log) ≤ sends (update w s id (some r) log).1)
      × (parse text ≡ some (obj (field (codes "policy") v end)))
      × (field_of (codes "group_id") v ≡ stated r.group_id)
      × (field_of (codes "resource_id") v ≡ stated r.resource_id)
      × (field_of (codes "description") v ≡ three_state r.description)
      × (field_of (codes "flow_log_uploads_enabled") v ≡ option_map bool r.flow_log_uploads_enabled)
      × (field_of (codes "is_disabled") v ≡ option_map bool r.is_disabled)
      × (field_of (codes "conditions") v ≡ option_map (nil_array condition_json) r.conditions)
update_policy_served w s n id r log ready bytes ascii accepted accepts =
    let v = update_policy_request_json r in
    let (group, resource, description, uploads, disabled, conditions) =
      update_policy_request_json_lem r in
    let (text, wrapped, parsed) =
      wrap_body_served (codes "policy") v (ground arith) (update_policy_request-IsText r ascii) in
    (
      text,
      v,
      subst
          (λ b. Asks s.client n (codes "PATCH") (one id) none b log (update w s id (some r) log).1)
          (ap sent_body wrapped) (update-Asks w s n ready id bytes (some r) log),
      sends-update w s n ready id bytes r _ log accepted accepts wrapped,
      parsed,
      group,
      resource,
      description,
      uploads,
      disabled,
      conditions,
    )
