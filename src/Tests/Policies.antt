-- ===== src/Tests/Policies.antt =====
-- A change of a Policy, from the request down to what the API reads.
use firezone_go.Prelude.{false, [], none, some, Str, codes, option_map, ◌≡◌, ◌≤◌, refl, arith}
use firezone_go.Calls.Requests.{Asks}
use firezone_go.Go.Json.{Json, bool, obj, field, end}
use firezone_go.Go.Json.Encode.{nil_array}
use firezone_go.Go.Json.Parse.{parse}
use firezone_go.Null.{clear}
use firezone_go.Null.Fields.{field_of, stated, three_state}
use firezone_go.Path.{check_id}
use firezone_go.Retry.Trace.{sends}
use firezone_go.Policies.{update}
use firezone_go.Policies.Requests.{one}
use firezone_go.Policies.Served.{IsAsciiUpdate, update_policy_served}
use firezone_go.Policies.Types.{UpdatePolicyRequest, condition_json}
use firezone_go.Tests.Data.{policies, world}
use firezone_go.Tests.Requests.{ready}

abbrev cleared : UpdatePolicyRequest
cleared = record {
  group_id = codes "g1";
  resource_id = [];
  description = clear (codes "old");
  flow_log_uploads_enabled = none;
  is_disabled = some false;
  conditions = some (some []);
}

cleared-IsAscii : IsAsciiUpdate cleared
unfolding clear
cleared-IsAscii = record {
  group_id = ground arith;
  resource_id = tt;
  description = ground arith;
  conditions = tt;
}

id_accepted : check_id (codes "Policy ID") (codes "p/1") ≡ none
unfolding check_id
id_accepted = refl

update_policy_served_example :
    (text : Str) × (v : Json) × Asks policies.client 2
      (codes "PATCH")
      (one (codes "p/1"))
      none
      (some text)
      []
      (update world policies (codes "p/1") (some cleared) []).1
    × (1 ≤ sends (update world policies (codes "p/1") (some cleared) []).1)
    × (parse text ≡ some (obj (field (codes "policy") v end)))
    × (field_of (codes "group_id") v ≡ stated (codes "g1"))
    × (field_of (codes "resource_id") v ≡ stated [])
    × (field_of (codes "description") v ≡ three_state cleared.description)
    × (field_of (codes "flow_log_uploads_enabled") v ≡ option_map bool none)
    × (field_of (codes "is_disabled") v ≡ option_map bool (some false))
    × (field_of (codes "conditions") v ≡ option_map (nil_array condition_json) (some (some [])))
update_policy_served_example =
    update_policy_served world policies 2 (codes "p/1") cleared [] ready (ground arith)
      cleared-IsAscii id_accepted (λ req. refl)
