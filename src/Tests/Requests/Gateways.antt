-- ===== src/Tests/Requests/Gateways.antt =====
-- The requests of the Gateways service, at one client.
use firezone_go.Prelude.{IsBytes, [], arith, codes, none, option_map, some, ◌∷◌}
use firezone_go.Calls.{wrap_body}
use firezone_go.Calls.Requests.{Asks, sent_body}
use firezone_go.Gateways.{gateway_query, get, list, provision, update, rotate_token, delete}
use firezone_go.Gateways.Types.{
  ProvisionGatewayRequest, provision_gateway_request_json, UpdateGatewayRequest,
  update_gateway_request_json,
}
use firezone_go.Gateways.Requests.{gateway_requests_lem, below}
use firezone_go.Tests.Data.{world, gateways}
use firezone_go.Tests.Requests.{ready}

abbrev new_gateway : ProvisionGatewayRequest
new_gateway = record { name = codes "g" }

abbrev renamed : UpdateGatewayRequest
renamed = record { name = codes "h" }

site_id-IsBytes : IsBytes gateways.site_id
site_id-IsBytes = ground arith

id-IsBytes : IsBytes (codes "p1")
id-IsBytes = ground arith

gateway_requests_lem_example :
    (Asks gateways.client 2
      (codes "GET")
      (below gateways ((codes "p1") ∷ []))
      none
      none
      []
      (get world gateways (codes "p1") []).1)
    × (Asks gateways.client 2
        (codes "GET")
        (below gateways [])
        (some (gateway_query none))
        none
        []
        (list world gateways none []).1)
    × (Asks gateways.client 2
        (codes "POST")
        (below gateways [])
        none
        (sent_body (
          wrap_body
            (codes "gateway")
            (option_map provision_gateway_request_json (some new_gateway))))
        []
        (provision world gateways (some new_gateway) []).1)
    × (Asks gateways.client 2
        (codes "PATCH")
        (below gateways ((codes "p1") ∷ []))
        none
        (sent_body
          (wrap_body (codes "gateway") (option_map update_gateway_request_json (some renamed))))
        []
        (update world gateways (codes "p1") (some renamed) []).1)
    × (Asks gateways.client 2
        (codes "POST")
        (below gateways ((codes "p1") ∷ codes "token" ∷ codes "rotate" ∷ []))
        none
        none
        []
        (rotate_token world gateways (codes "p1") []).1)
    × (Asks gateways.client 2
        (codes "DELETE")
        (below gateways ((codes "p1") ∷ []))
        none
        none
        []
        (delete world gateways (codes "p1") []).1)
gateway_requests_lem_example =
    gateway_requests_lem world gateways 2 (codes "p1") none (some new_gateway) (some renamed) []
      ready site_id-IsBytes id-IsBytes
