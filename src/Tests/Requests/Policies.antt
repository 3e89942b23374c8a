-- ===== src/Tests/Requests/Policies.antt =====
-- The requests of the Policies service, at one client.
use firezone_go.Prelude.{IsBytes, [], arith, codes, none, option_map, some, true}
use firezone_go.Calls.{wrap_body}
use firezone_go.Calls.Requests.{Asks, sent_body}
use firezone_go.Policies.{
  policy_query, get, list, create, update, delete, disable, enable, only_is_disabled,
}
use firezone_go.Policies.Types.{
  UpdatePolicyRequest, update_policy_request_json, CreatePolicyRequest, create_policy_request_json,
}
use firezone_go.Policies.Requests.{policy_requests_lem, one, all}
use firezone_go.Tests.Data.{world, policies}
use firezone_go.Tests.Requests.{ready}

abbrev new_policy : CreatePolicyRequest
new_policy = record {
  group_id = codes "g";
  resource_id = codes "r";
  description = [];
  flow_log_uploads_enabled = none;
  conditions = [];
}

abbrev disabling : UpdatePolicyRequest
disabling = only_is_disabled true

id-IsBytes : IsBytes (codes "p1")
id-IsBytes = ground arith

policy_requests_lem_example :
    (Asks policies.client 2
      (codes "GET")
      (one (codes "p1"))
      none
      none
      []
      (get world policies (codes "p1") []).1)
    × (Asks policies.client 2
        (codes "GET")
        all
        (some (policy_query none))
        none
        []
        (list world policies none []).1)
    × (Asks policies.client 2
        (codes "POST")
        all
        none
        (sent_body
          (wrap_body (codes "policy") (option_map create_policy_request_json (some new_policy))))
        []
        (create world policies (some new_policy) []).1)
    × (Asks policies.client 2
        (codes "PATCH")
        (one (codes "p1"))
        none
        (sent_body
          (wrap_body (codes "policy") (option_map update_policy_request_json (some disabling))))
        []
        (update world policies (codes "p1") (some disabling) []).1)
    × (Asks policies.client 2
        (codes "DELETE")
        (one (codes "p1"))
        none
        none
        []
        (delete world policies (codes "p1") []).1)
    × (Asks policies.client 2
        (codes "PATCH")
        (one (codes "p1"))
        none
        (some (codes "{\"policy\":{\"is_disabled\":true}}"))
        []
        (disable world policies (codes "p1") []).1)
    × (Asks policies.client 2
        (codes "PATCH")
        (one (codes "p1"))
        none
        (some (codes "{\"policy\":{\"is_disabled\":false}}"))
        []
        (enable world policies (codes "p1") []).1)
policy_requests_lem_example =
    policy_requests_lem world policies 2 (codes "p1") none (some new_policy) (some disabling) []
      ready id-IsBytes
