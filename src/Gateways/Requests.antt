-- ===== src/Gateways/Requests.antt =====
-- The requests of the operations of gateways.go.
use firezone_go.Prelude.{
  ℕ, Option, none, some, Str, codes, List, [], ◌∷◌, refl, All, IsBytes, option_map, arith,
}
use firezone_go.Calls.{wrap_body, check, ◌>>◌, do_into, do_only, do_list}
use firezone_go.Calls.Requests.{
  Ready, IsPath, Asks, sent_body, check-Asks, do_list-Asks, checked_into, checked_only,
  checked_wrapped,
}
use firezone_go.Gateways.{
  GatewaysService, base_path, gateway_query, get, list, provision, update, rotate_token, delete,
}
use firezone_go.Gateways.Types.{
  gateway_fields, zero_gateway, provisioned_gateway_fields, zero_provisioned_gateway,
  ProvisionGatewayRequest, provision_gateway_request_json, rotated_gateway_token_fields,
  zero_rotated_gateway_token, UpdateGatewayRequest, update_gateway_request_json, GatewayListOptions,
}
use firezone_go.Go.Json.Decode.{dec_struct}
use firezone_go.Http.{World, Log, M, RequestBody, lift, ◌>>=◌}
use firezone_go.Go.Values.{Values}
use firezone_go.Path.{check_id}

fixed-IsBytes :
    IsBytes (codes "sites")
    × IsBytes (codes "gateways")
    × IsBytes (codes "token")
    × IsBytes (codes "rotate")
fixed-IsBytes = ground arith

-- "sites", the ID of the Site, "gateways" and what follows.
abbrev pub below : GatewaysService → List Str → List Str
below s segments = codes "sites" ∷ s.site_id ∷ codes "gateways" ∷ segments

module _ (w : World) (s : GatewaysService) (n : ℕ) (ready : Ready w s.client n)
    (site : IsBytes s.site_id) where
  below-IsPath :
      (segments : List Str)
      → All IsBytes segments
      → IsPath (base_path s segments) (below s segments)
  unfolding base_path
  below-IsPath segments bytes = record {
    built = refl;
    some_segment = λ e. cc;
    bytes = (fixed-IsBytes.0, (site, (fixed-IsBytes.1, bytes)));
  }

  -- The check of the Site stands before every operation.
  site_checked :
      {B : Type 0} (method : Str) (segments : List Str) (bytes : All IsBytes segments)
      (query : Option Values) (k : M B) (body : RequestBody) (log : Log)
      → Asks s.client n method (below s segments) query body log (k log).1
      → Asks s.client n method
          (below s segments)
          query
          body
          log
          ((check (check_id (codes "site ID") s.site_id) >> k) log).1
  site_checked method segments bytes query k body log h =
      check-Asks w s.client n ready method (base_path s segments) (below s segments)
        (below-IsPath segments bytes) query (check_id (codes "site ID") s.site_id) k body log h

  module _ (id : Str) (bytes : IsBytes id) (log : Log) where
    get-Asks : Asks s.client n (codes "GET") (below s (id ∷ [])) none none log (get w s id log).1
    unfolding get
    get-Asks =
        site_checked (codes "GET") (id ∷ []) (bytes, tt) none
          (check (check_id (codes "Gateway ID") id)
            >> do_into w s.client (codes "GET") (base_path s (id ∷ [])) none none
                (dec_struct gateway_fields) zero_gateway)
          none log
          (checked_into w s.client n ready (codes "GET") (base_path s (id ∷ [])) (below s (id ∷ []))
            (below-IsPath (id ∷ []) (bytes, tt)) none (check_id (codes "Gateway ID") id) none
            (dec_struct gateway_fields) zero_gateway log)

    delete-Asks :
        Asks s.client n (codes "DELETE") (below s (id ∷ [])) none none log (delete w s id log).1
    unfolding delete
    delete-Asks =
        site_checked (codes "DELETE") (id ∷ []) (bytes, tt) none
          (check (check_id (codes "Gateway ID") id)
            >> do_only w s.client (codes "DELETE") (base_path s (id ∷ [])) none none)
          none log
          (checked_only w s.client n ready (codes "DELETE") (base_path s (id ∷ []))
            (below s (id ∷ [])) (below-IsPath (id ∷ []) (bytes, tt)) none
            (check_id (codes "Gateway ID") id) none log)

    rotate-Asks :
        Asks s.client n
          (codes "POST")
          (below s (id ∷ codes "token" ∷ codes "rotate" ∷ []))
          none
          none
          log
          (rotate_token w s id log).1
    unfolding rotate_token
    rotate-Asks =
        let segments = id ∷ codes "token" ∷ codes "rotate" ∷ [] in
        let all_bytes : All IsBytes segments = (bytes, (fixed-IsBytes.2, (fixed-IsBytes.3, tt))) in
        site_checked (codes "POST") segments all_bytes none
          (check (check_id (codes "Gateway ID") id)
            >> do_into w s.client (codes "POST") (base_path s segments) none none
                (dec_struct rotated_gateway_token_fields) zero_rotated_gateway_token)
          none log
          (checked_into w s.client n ready (codes "POST") (base_path s segments) (below s segments)
            (below-IsPath segments all_bytes) none (check_id (codes "Gateway ID") id) none
            (dec_struct rotated_gateway_token_fields) zero_rotated_gateway_token log)

    update-Asks :
        (change : Option UpdateGatewayRequest)
        → Asks s.client n
            (codes "PATCH")
            (below s (id ∷ []))
            none
            (sent_body
              (wrap_body (codes "gateway") (option_map update_gateway_request_json change)))
            log
            (update w s id change log).1
    unfolding update
    update-Asks change =
        let r = wrap_body (codes "gateway") (option_map update_gateway_request_json change) in
        site_checked (codes "PATCH") (id ∷ []) (bytes, tt) none
          (check (check_id (codes "Gateway ID") id)
            >> (lift r >>= λ body.
                do_into w s.client (codes "PATCH") (base_path s (id ∷ [])) none body
                  (dec_struct gateway_fields) zero_gateway))
          (sent_body r) log
          (checked_wrapped w s.client n ready (codes "PATCH") (base_path s (id ∷ []))
            (below s (id ∷ [])) (below-IsPath (id ∷ []) (bytes, tt))
            (check_id (codes "Gateway ID") id) r (dec_struct gateway_fields) zero_gateway log)

  list-Asks :
      (opts : Option GatewayListOptions) (log : Log)
      → Asks s.client n
          (codes "GET")
          (below s [])
          (some (gateway_query opts))
          none
          log
          (list w s opts log).1
  unfolding list
  list-Asks opts log =
      site_checked (codes "GET") [] tt (some (gateway_query opts))
        (do_list w s.client (codes "GET") (base_path s []) (gateway_query opts)
          (dec_struct gateway_fields) zero_gateway)
        none log
        (do_list-Asks w s.client n ready (base_path s []) (below s []) (below-IsPath [] tt)
          (gateway_query opts) (dec_struct gateway_fields) zero_gateway log)

  provision-Asks :
      (new : Option ProvisionGatewayRequest) (log : Log)
      → Asks s.client n
          (codes "POST")
          (below s [])
          none
          (sent_body (wrap_body (codes "gateway") (option_map provision_gateway_request_json new)))
          log
          (provision w s new log).1
  unfolding provision
  provision-Asks new log =
      checked_wrapped w s.client n ready (codes "POST") (base_path s []) (below s [])
        (below-IsPath [] tt) (check_id (codes "site ID") s.site_id)
        (wrap_body (codes "gateway") (option_map provision_gateway_request_json new))
        (dec_struct provisioned_gateway_fields) zero_provisioned_gateway log

-- With a client that is ready with a budget of `n` retries and IDs of bytes, every operation on
-- the Gateways of a Site asks for nothing but its request, at most `n + 1` times, and once if
-- retries are disabled, whatever is answered: getting, changing and deleting one ask for GET,
-- PATCH and DELETE of "sites", the Site's ID, "gateways" and its ID, listing and provisioning for
-- GET and POST without that ID, the former with the query of the options, and rotating the token
-- for POST of "token" and "rotate" below the ID. The encoded request is the body of a change and
-- of a provisioning, and nothing else has a body.
pub gateway_requests_lem :
    (w : World) (s : GatewaysService) (n : ℕ) (id : Str) (opts : Option GatewayListOptions)
    (new : Option ProvisionGatewayRequest) (change : Option UpdateGatewayRequest) (log : Log)
    → Ready w s.client n
    → IsBytes s.site_id
    → IsBytes id
    → (Asks s.client n (codes "GET") (below s (id ∷ [])) none none log (get w s id log).1)
      × (Asks s.client n
          (codes "GET")
          (below s [])
          (some (gateway_query opts))
          none
          log
          (list w s opts log).1)
      × (Asks s.client n
          (codes "POST")
          (below s [])
          none
          (sent_body (wrap_body (codes "gateway") (option_map provision_gateway_request_json new)))
          log
          (provision w s new log).1)
      × (Asks s.client n
          (codes "PATCH")
          (below s (id ∷ []))
          none
          (sent_body (wrap_body (codes "gateway") (option_map update_gateway_request_json change)))
          log
          (update w s id change log).1)
      × (Asks s.client n
          (codes "POST")
          (below s (id ∷ codes "token" ∷ codes "rotate" ∷ []))
          none
          none
          log
          (rotate_token w s id log).1)
      × (Asks s.client n (codes "DELETE") (below s (id ∷ [])) none none log (delete w s id log).1)
gateway_requests_lem w s n id opts new change log ready site bytes = (
  get-Asks w s n ready site id bytes log,
  list-Asks w s n ready site opts log,
  provision-Asks w s n ready site new log,
  update-Asks w s n ready site id bytes log change,
  rotate-Asks w s n ready site id bytes log,
  delete-Asks w s n ready site id bytes log,
)
