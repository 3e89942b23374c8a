-- ===== src/Policies.antt =====
-- policies.go: the Policies.
pub mod Guards
pub mod Patch
pub mod Toggle
pub mod Requests
pub mod RoundTrip
pub mod Served
pub mod Types
use firezone_go.Policies.Types.{
  Policy, zero_policy, policy_fields, CreatePolicyRequest, create_policy_request_json,
  UpdatePolicyRequest, update_policy_request_json, PolicyListOptions, zero_policy_list_options,
}
use firezone_go.Prelude.{
  Bool, true, false, not, List, [], ◌∷◌, ◌++◌, Option, none, some, Str, codes, str_eq,
  if◌then◌else◌, map, ℕ,
}
use firezone_go.Prelude.Int.{ℤ, pos}
use firezone_go.Calls.{check, ◌>>◌, or_zero, wrap_body, do_into, do_only, do_list}
use firezone_go.Client.{Client}
use firezone_go.Go.Json.{arr, items, Json}
use firezone_go.Go.Json.Decode.{dec_struct}
use firezone_go.Go.Json.Encode.{array}
use firezone_go.Go.Values.{Values, set}
use firezone_go.Http.{World, M, ◌>>=◌, lift, pure}
use firezone_go.Path.{check_id, build_path}
use firezone_go.Query.{ListOptions, Page, filter_query, list_options_to_query}
use firezone_go.Prelude.{option_map}

pub record PoliciesService : Type 0 where
  pub client : Client

unfoldable pub policy_query : Option PolicyListOptions → Values
unfolding filter_query
policy_query given =
    let opts = or_zero zero_policy_list_options given in
    filter_query opts.list_options
      ((codes "group_id", opts.group_id) ∷ (codes "resource_id", opts.resource_id) ∷ [])

abbrev pub only_is_disabled : Bool → UpdatePolicyRequest
only_is_disabled disabled = record {
  group_id = [];
  resource_id = [];
  description = none;
  flow_log_uploads_enabled = none;
  is_disabled = some disabled;
  conditions = none;
}

module _ (w : World) (s : PoliciesService) where
  unfoldable pub get : Str → M Policy
  unfolding check_id build_path do_into policy_fields
  get id = do
    check (check_id (codes "Policy ID") id)
    do_into w s.client (codes "GET") (build_path (codes "policies" ∷ id ∷ [])) none none
        (dec_struct policy_fields) zero_policy

  unfoldable pub list : Option PolicyListOptions → M (Page Policy)
  unfolding do_list policy_fields policy_query
  list opts = do
    do_list w s.client (codes "GET") (codes "policies") (policy_query opts)
        (dec_struct policy_fields) zero_policy

  unfoldable pub create : Option CreatePolicyRequest → M Policy
  unfolding wrap_body create_policy_request_json do_into policy_fields
  create req = do
    body ← lift (wrap_body (codes "policy") (option_map create_policy_request_json req))
    do_into w s.client (codes "POST") (codes "policies") none body (dec_struct policy_fields)
        zero_policy

  unfoldable pub update : Str → Option UpdatePolicyRequest → M Policy
  unfolding check_id build_path wrap_body update_policy_request_json do_into policy_fields
  update id req = do
    check (check_id (codes "Policy ID") id)
    body ← lift (wrap_body (codes "policy") (option_map update_policy_request_json req))
    do_into w s.client (codes "PATCH") (build_path (codes "policies" ∷ id ∷ [])) none body
        (dec_struct policy_fields) zero_policy

  unfoldable pub delete : Str → M (Unit {0})
  unfolding check_id build_path do_only
  delete id = do
    check (check_id (codes "Policy ID") id)
    do_only w s.client (codes "DELETE") (build_path (codes "policies" ∷ id ∷ [])) none none

  unfoldable pub disable : Str → M Policy
  unfolding check_id update
  disable id = do check (check_id (codes "Policy ID") id); update id (some (only_is_disabled true))

  unfoldable pub enable : Str → M Policy
  unfolding check_id update
  enable id = do check (check_id (codes "Policy ID") id); update id (some (only_is_disabled false))
