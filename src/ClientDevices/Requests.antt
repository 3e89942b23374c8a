-- ===== src/ClientDevices/Requests.antt =====
-- The requests of the operations of clients.go.
use firezone_go.Prelude.{
  ℕ, Option, none, some, Str, codes, List, [], ◌∷◌, refl, IsBytes, option_map, arith,
}
use firezone_go.Calls.{wrap_body}
use firezone_go.Calls.Requests.{
  Ready, IsPath, Asks, sent_body, do_list-Asks, checked_into, checked_only, checked_wrapped,
}
use firezone_go.Go.Json.Decode.{dec_struct}
use firezone_go.Http.{World, Log}
use firezone_go.Path.{check_id, build_path}
use firezone_go.ClientDevices.{
  ClientsService, client_query, get, list, update, delete, verify, unverify,
}
use firezone_go.ClientDevices.Types.{
  ClientListOptions, UpdateClientRequest, update_client_request_json, client_device_fields,
  zero_client_device,
}

fixed-IsBytes : IsBytes (codes "clients") × IsBytes (codes "verify") × IsBytes (codes "unverify")
fixed-IsBytes = ground arith

abbrev pub all : List Str
all = codes "clients" ∷ []

abbrev pub one : Str → List Str
one id = codes "clients" ∷ id ∷ []

all-IsPath : IsPath (codes "clients") all
unfolding build_path firezone_go.Go.Escape.escape firezone_go.Go.Strings.join
all-IsPath = record { built = refl; some_segment = λ e. cc; bytes = (fixed-IsBytes.0, tt) }

one-IsPath : (id : Str) → IsBytes id → IsPath (build_path (one id)) (one id)
one-IsPath id h = record {
  built = refl;
  some_segment = λ e. cc;
  bytes = (fixed-IsBytes.0, (h, tt));
}

abbrev pub act : Str → Str → List Str
act id name = codes "clients" ∷ id ∷ name ∷ []

act-IsPath :
    (id name : Str) → IsBytes id → IsBytes name → IsPath (build_path (act id name)) (act id name)
act-IsPath id name h k = record {
  built = refl;
  some_segment = λ e. cc;
  bytes = (fixed-IsBytes.0, (h, (k, tt)));
}

update-Asks :
    (w : World) (s : ClientsService) (n : ℕ) (ready : Ready w s.client n) (id : Str)
    (bytes : IsBytes id) (change : Option UpdateClientRequest) (log : Log)
    → Asks s.client n
        (codes "PATCH")
        (one id)
        none
        (sent_body (wrap_body (codes "client") (option_map update_client_request_json change)))
        log
        (update w s id change log).1
unfolding update
update-Asks w s n ready id bytes change log =
    checked_wrapped w s.client n ready (codes "PATCH") (build_path (one id)) (one id)
      (one-IsPath id bytes) (check_id (codes "Client ID") id)
      (wrap_body (codes "client") (option_map update_client_request_json change))
      (dec_struct client_device_fields) zero_client_device log

-- With a client that is ready with a budget of `n` retries and an ID of bytes, every operation on
-- the Clients asks for nothing but its request, at most `n + 1` times, and once if retries are
-- disabled, whatever is answered: getting, changing and deleting one ask for GET, PATCH and DELETE
-- of "clients" and the ID, listing asks for GET of "clients" with the query of the options, and
-- verifying and unverifying ask for PUT of "verify" and "unverify" below the ID. The encoded
-- request is the body where there is one, and nothing else has a body.
pub client_requests_lem :
    (w : World) (s : ClientsService) (n : ℕ) (id : Str) (opts : Option ClientListOptions)
    (change : Option UpdateClientRequest) (log : Log)
    → Ready w s.client n
    → IsBytes id
    → (Asks s.client n (codes "GET") (one id) none none log (get w s id log).1)
      × (Asks s.client n
          (codes "GET")
          all
          (some (client_query opts))
          none
          log
          (list w s opts log).1)
      × (Asks s.client n
          (codes "PATCH")
          (one id)
          none
          (sent_body (wrap_body (codes "client") (option_map update_client_request_json change)))
          log
          (update w s id change log).1)
      × (Asks s.client n (codes "DELETE") (one id) none none log (delete w s id log).1)
      × (Asks s.client n
          (codes "PUT")
          (act id (codes "verify"))
          none
          none
          log
          (verify w s id log).1)
      × (Asks s.client n
          (codes "PUT")
          (act id (codes "unverify"))
          none
          none
          log
          (unverify w s id log).1)
unfolding get list delete verify unverify
client_requests_lem w s n id opts change log ready bytes =
    let one_path = one-IsPath id bytes in
    (
      checked_into w s.client n ready (codes "GET") (build_path (one id)) (one id) one_path none
          (check_id (codes "Client ID") id) none (dec_struct client_device_fields)
          zero_client_device log,
      do_list-Asks w s.client n ready (codes "clients") all all-IsPath (client_query opts)
          (dec_struct client_device_fields) zero_client_device log,
      update-Asks w s n ready id bytes change log,
      checked_only w s.client n ready (codes "DELETE") (build_path (one id)) (one id) one_path none
          (check_id (codes "Client ID") id) none log,
      checked_into w s.client n ready (codes "PUT") (build_path (act id (codes "verify")))
          (act id (codes "verify")) (act-IsPath id (codes "verify") bytes fixed-IsBytes.1) none
          (check_id (codes "Client ID") id) none (dec_struct client_device_fields)
          zero_client_device log,
      checked_into w s.client n ready (codes "PUT") (build_path (act id (codes "unverify")))
          (act id (codes "unverify")) (act-IsPath id (codes "unverify") bytes fixed-IsBytes.2) none
          (check_id (codes "Client ID") id) none (dec_struct client_device_fields)
          zero_client_device log,
    )
