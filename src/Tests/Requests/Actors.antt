-- ===== src/Tests/Requests/Actors.antt =====
-- The requests of the Actors service, at one client.
use firezone_go.Prelude.{IsBytes, [], arith, codes, none, option_map, some, true}
use firezone_go.Calls.{wrap_body}
use firezone_go.Calls.Requests.{Asks, sent_body}
use firezone_go.Actors.{
  actor_query, get, list, create, update, delete, disable, enable, only_is_disabled,
}
use firezone_go.Actors.Types.{
  UpdateActorRequest, update_actor_request_json, CreateActorRequest, create_actor_request_json,
}
use firezone_go.Actors.Requests.{actor_requests_lem, one, all}
use firezone_go.Tests.Data.{world, actors}
use firezone_go.Tests.Requests.{ready}

abbrev new_actor : CreateActorRequest
new_actor = record {
  name = codes "a";
  type = codes "service_account";
  email = [];
  allow_email_otp_sign_in = none;
}

abbrev disabling : UpdateActorRequest
disabling = only_is_disabled true

id-IsBytes : IsBytes (codes "p1")
id-IsBytes = ground arith

actor_requests_lem_example :
    (Asks actors.client 2
      (codes "GET")
      (one (codes "p1"))
      none
      none
      []
      (get world actors (codes "p1") []).1)
    × (Asks actors.client 2
        (codes "GET")
        all
        (some (actor_query none))
        none
        []
        (list world actors none []).1)
    × (Asks actors.client 2
        (codes "POST")
        all
        none
        (sent_body
          (wrap_body (codes "actor") (option_map create_actor_request_json (some new_actor))))
        []
        (create world actors (some new_actor) []).1)
    × (Asks actors.client 2
        (codes "PATCH")
        (one (codes "p1"))
        none
        (sent_body
          (wrap_body (codes "actor") (option_map update_actor_request_json (some disabling))))
        []
        (update world actors (codes "p1") (some disabling) []).1)
    × (Asks actors.client 2
        (codes "DELETE")
        (one (codes "p1"))
        none
        none
        []
        (delete world actors (codes "p1") []).1)
    × (Asks actors.client 2
        (codes "PATCH")
        (one (codes "p1"))
        none
        (some (codes "{\"actor\":{\"is_disabled\":true}}"))
        []
        (disable world actors (codes "p1") []).1)
    × (Asks actors.client 2
        (codes "PATCH")
        (one (codes "p1"))
        none
        (some (codes "{\"actor\":{\"is_disabled\":false}}"))
        []
        (enable world actors (codes "p1") []).1)
actor_requests_lem_example =
    actor_requests_lem world actors 2 (codes "p1") none (some new_actor) (some disabling) [] ready
      id-IsBytes
