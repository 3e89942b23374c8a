-- ===== src/Tests/Requests/ClientDevices.antt =====
-- The requests of the ClientDevices service, at one client.
use firezone_go.Prelude.{IsBytes, [], arith, codes, none, option_map, some}
use firezone_go.Calls.{wrap_body}
use firezone_go.Calls.Requests.{Asks, sent_body}
use firezone_go.ClientDevices.{
  client_query, get, list, update, delete, verify, unverify, ClientsService,
}
use firezone_go.ClientDevices.Types.{UpdateClientRequest, update_client_request_json}
use firezone_go.ClientDevices.Requests.{client_requests_lem, one, all, act}
use firezone_go.Tests.Data.{client, world}
use firezone_go.Tests.Requests.{ready}

abbrev devices : ClientsService
devices = record { client = client }

abbrev renamed : UpdateClientRequest
renamed = record { name = codes "laptop" }

id-IsBytes : IsBytes (codes "p1")
id-IsBytes = ground arith

client_requests_lem_example :
    (Asks devices.client 2
      (codes "GET")
      (one (codes "p1"))
      none
      none
      []
      (get world devices (codes "p1") []).1)
    × (Asks devices.client 2
        (codes "GET")
        all
        (some (client_query none))
        none
        []
        (list world devices none []).1)
    × (Asks devices.client 2
        (codes "PATCH")
        (one (codes "p1"))
        none
        (sent_body
          (wrap_body (codes "client") (option_map update_client_request_json (some renamed))))
        []
        (update world devices (codes "p1") (some renamed) []).1)
    × (Asks devices.client 2
        (codes "DELETE")
        (one (codes "p1"))
        none
        none
        []
        (delete world devices (codes "p1") []).1)
    × (Asks devices.client 2
        (codes "PUT")
        (act (codes "p1") (codes "verify"))
        none
        none
        []
        (verify world devices (codes "p1") []).1)
    × (Asks devices.client 2
        (codes "PUT")
        (act (codes "p1") (codes "unverify"))
        none
        none
        []
        (unverify world devices (codes "p1") []).1)
client_requests_lem_example =
    client_requests_lem world devices 2 (codes "p1") none (some renamed) [] ready id-IsBytes
