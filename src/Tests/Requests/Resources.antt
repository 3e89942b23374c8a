-- ===== src/Tests/Requests/Resources.antt =====
-- The requests of the Resources service, at one client.
use firezone_go.Prelude.{IsBytes, [], arith, codes, none, option_map, some}
use firezone_go.Calls.{wrap_body}
use firezone_go.Calls.Requests.{Asks, sent_body}
use firezone_go.Resources.{resource_query, get, list, create, update, delete, ResourcesService}
use firezone_go.Resources.Types.{
  UpdateResourceRequest, update_resource_request_json, CreateResourceRequest,
  create_resource_request_json,
}
use firezone_go.Resources.Requests.{resource_requests_lem, one, all}
use firezone_go.Tests.Data.{client, world}
use firezone_go.Tests.Requests.{ready}
use firezone_go.Null.{clear}

abbrev resources : ResourcesService
resources = record { client = client }

abbrev new_resource : CreateResourceRequest
new_resource = record {
  name = codes "db";
  type = codes "ip";
  address = codes "10.0.0.1";
  address_description = [];
  ip_stack = [];
  site_id = [];
  filters = [];
}

abbrev cleared : UpdateResourceRequest
cleared = record {
  name = [];
  type = [];
  address = none;
  address_description = clear [];
  ip_stack = none;
  site_id = none;
  filters = none;
}

id-IsBytes : IsBytes (codes "p1")
id-IsBytes = ground arith

resource_requests_lem_example :
    (Asks resources.client 2
      (codes "GET")
      (one (codes "p1"))
      none
      none
      []
      (get world resources (codes "p1") []).1)
    × (Asks resources.client 2
        (codes "GET")
        all
        (some (resource_query none))
        none
        []
        (list world resources none []).1)
    × (Asks resources.client 2
        (codes "POST")
        all
        none
        (sent_body (
          wrap_body
            (codes "resource")
            (option_map create_resource_request_json (some new_resource))))
        []
        (create world resources (some new_resource) []).1)
    × (Asks resources.client 2
        (codes "PATCH")
        (one (codes "p1"))
        none
        (sent_body
          (wrap_body (codes "resource") (option_map update_resource_request_json (some cleared))))
        []
        (update world resources (codes "p1") (some cleared) []).1)
    × (Asks resources.client 2
        (codes "DELETE")
        (one (codes "p1"))
        none
        none
        []
        (delete world resources (codes "p1") []).1)
resource_requests_lem_example =
    resource_requests_lem world resources 2 (codes "p1") none (some new_resource) (some cleared) []
      ready id-IsBytes
