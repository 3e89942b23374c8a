-- ===== src/Tests/Resources.antt =====
-- A change of a Resource, from the request down to what the API reads.
use firezone_go.Prelude.{[], ◌∷◌, none, some, Str, codes, option_map, ◌≡◌, ◌≤◌, refl, arith}
use firezone_go.Calls.Requests.{Asks}
use firezone_go.Go.Json.{Json, obj, field, end}
use firezone_go.Go.Json.Encode.{nil_array}
use firezone_go.Go.Json.Parse.{parse}
use firezone_go.Null.{set, clear}
use firezone_go.Null.Fields.{field_of, stated, three_state}
use firezone_go.Path.{check_id}
use firezone_go.Retry.Trace.{sends}
use firezone_go.Resources.{ResourcesService, update}
use firezone_go.Resources.Requests.{one}
use firezone_go.Resources.Served.{IsAsciiUpdate, update_resource_served}
use firezone_go.Resources.Types.{Filter, UpdateResourceRequest, filter_json}
use firezone_go.Tests.Data.{client, world}
use firezone_go.Tests.Requests.{ready}

abbrev resources : ResourcesService
resources = record { client = client }

abbrev web : Filter
web = record { protocol = codes "tcp"; ports = codes "80" ∷ codes "443" ∷ [] }

abbrev moved : UpdateResourceRequest
moved = record {
  name = codes "db";
  type = [];
  address = set (codes "10.0.0.1");
  address_description = none;
  ip_stack = clear [];
  site_id = none;
  filters = some (some (web ∷ []));
}

moved-IsAscii : IsAsciiUpdate moved
unfolding set clear
moved-IsAscii = record {
  name = ground arith;
  type = tt;
  address = ground arith;
  address_description = tt;
  ip_stack = tt;
  site_id = tt;
  filters = ground arith;
}

id_accepted : check_id (codes "Resource ID") (codes "r/1") ≡ none
unfolding check_id
id_accepted = refl

update_resource_served_example :
    (text : Str) × (v : Json) × Asks resources.client 2
      (codes "PATCH")
      (one (codes "r/1"))
      none
      (some text)
      []
      (update world resources (codes "r/1") (some moved) []).1
    × (1 ≤ sends (update world resources (codes "r/1") (some moved) []).1)
    × (parse text ≡ some (obj (field (codes "resource") v end)))
    × (field_of (codes "name") v ≡ stated (codes "db"))
    × (field_of (codes "type") v ≡ stated [])
    × (field_of (codes "address") v ≡ three_state moved.address)
    × (field_of (codes "address_description") v ≡ three_state none)
    × (field_of (codes "ip_stack") v ≡ three_state moved.ip_stack)
    × (field_of (codes "site_id") v ≡ three_state none)
    × (field_of (codes "filters") v ≡ option_map (nil_array filter_json) (some (some (web ∷ []))))
update_resource_served_example =
    update_resource_served world resources 2 (codes "r/1") moved [] ready (ground arith)
      moved-IsAscii id_accepted (λ req. refl)
