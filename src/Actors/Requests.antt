-- ===== src/Actors/Requests.antt =====
-- The requests of the operations of actors.go.
use firezone_go.Prelude.{
  ℕ, true, false, Option, none, some, Str, codes, List, [], ◌∷◌, refl, IsBytes, option_map, arith,
}
use firezone_go.Calls.{wrap_body}
use firezone_go.Calls.Requests.{
  Ready, IsPath, Asks, sent_body, check-Asks, wrapped-Asks, do_list-Asks, checked_into,
  checked_only, checked_wrapped,
}
use firezone_go.Go.Json.Decode.{dec_struct}
use firezone_go.Http.{World, Log}
use firezone_go.Path.{check_id, build_path}
use firezone_go.Actors.{
  ActorsService, actor_query, get, list, create, update, delete, disable, enable, only_is_disabled,
}
use firezone_go.Actors.Types.{
  ActorListOptions, UpdateActorRequest, update_actor_request_json, actor_fields, zero_actor,
  CreateActorRequest, create_actor_request_json,
}
use firezone_go.Go.Json.Print.{print}

fixed-IsBytes : IsBytes (codes "actors")
fixed-IsBytes = ground arith

abbrev pub all : List Str
all = codes "actors" ∷ []

abbrev pub one : Str → List Str
one id = codes "actors" ∷ id ∷ []

all-IsPath : IsPath (codes "actors") all
unfolding build_path firezone_go.Go.Escape.escape firezone_go.Go.Strings.join
all-IsPath = record { built = refl; some_segment = λ e. cc; bytes = (fixed-IsBytes, tt) }

one-IsPath : (id : Str) → IsBytes id → IsPath (build_path (one id)) (one id)
one-IsPath id h = record { built = refl; some_segment = λ e. cc; bytes = (fixed-IsBytes, (h, tt)) }

update-Asks :
    (w : World) (s : ActorsService) (n : ℕ) (ready : Ready w s.client n) (id : Str)
    (bytes : IsBytes id) (change : Option UpdateActorRequest) (log : Log)
    → Asks s.client n
        (codes "PATCH")
        (one id)
        none
        (sent_body (wrap_body (codes "actor") (option_map update_actor_request_json change)))
        log
        (update w s id change log).1
unfolding update
update-Asks w s n ready id bytes change log =
    checked_wrapped w s.client n ready (codes "PATCH") (build_path (one id)) (one id)
      (one-IsPath id bytes) (check_id (codes "Actor ID") id)
      (wrap_body (codes "actor") (option_map update_actor_request_json change))
      (dec_struct actor_fields) zero_actor log

-- With a client that is ready with a budget of `n` retries and an ID of bytes, every operation on
-- the Actors asks for nothing but its request, at most `n + 1` times, and once if retries are
-- disabled, whatever is answered: getting, changing and deleting one ask for GET, PATCH and DELETE
-- of "actors" and the ID, listing asks for GET of "actors" with the query of the options, creating
-- asks for POST of "actors", and disabling and enabling ask for PATCH of the ID with a body that
-- only sets `is_disabled`. The encoded request is the body where there is one, and nothing else
-- has a body.
pub actor_requests_lem :
    (w : World) (s : ActorsService) (n : ℕ) (id : Str) (opts : Option ActorListOptions)
    (new : Option CreateActorRequest) (change : Option UpdateActorRequest) (log : Log)
    → Ready w s.client n
    → IsBytes id
    → (Asks s.client n (codes "GET") (one id) none none log (get w s id log).1)
      × (Asks s.client n (codes "GET") all (some (actor_query opts)) none log (list w s opts log).1)
      × (Asks s.client n
          (codes "POST")
          all
          none
          (sent_body (wrap_body (codes "actor") (option_map create_actor_request_json new)))
          log
          (create w s new log).1)
      × (Asks s.client n
          (codes "PATCH")
          (one id)
          none
          (sent_body (wrap_body (codes "actor") (option_map update_actor_request_json change)))
          log
          (update w s id change log).1)
      × (Asks s.client n (codes "DELETE") (one id) none none log (delete w s id log).1)
      × (Asks s.client n
          (codes "PATCH")
          (one id)
          none
          (some (codes "{\"actor\":{\"is_disabled\":true}}"))
          log
          (disable w s id log).1)
      × (Asks s.client n
          (codes "PATCH")
          (one id)
          none
          (some (codes "{\"actor\":{\"is_disabled\":false}}"))
          log
          (enable w s id log).1)
unfolding get list create delete disable enable wrap_body print update_actor_request_json
actor_requests_lem w s n id opts new change log ready bytes =
    let one_path = one-IsPath id bytes in
    (
      checked_into w s.client n ready (codes "GET") (build_path (one id)) (one id) one_path none
          (check_id (codes "Actor ID") id) none (dec_struct actor_fields) zero_actor log,
      do_list-Asks w s.client n ready (codes "actors") all all-IsPath (actor_query opts)
          (dec_struct actor_fields) zero_actor log,
      wrapped-Asks w s.client n ready (codes "POST") (codes "actors") all all-IsPath
          (wrap_body (codes "actor") (option_map create_actor_request_json new))
          (dec_struct actor_fields) zero_actor log,
      update-Asks w s n ready id bytes change log,
      checked_only w s.client n ready (codes "DELETE") (build_path (one id)) (one id) one_path none
          (check_id (codes "Actor ID") id) none log,
      check-Asks w s.client n ready (codes "PATCH") (build_path (one id)) (one id) one_path none
          (check_id (codes "Actor ID") id) (update w s id (some (only_is_disabled true)))
          (sent_body (
            wrap_body (codes "actor")
              (option_map update_actor_request_json (some (only_is_disabled true)))))
          log (update-Asks w s n ready id bytes (some (only_is_disabled true)) log),
      check-Asks w s.client n ready (codes "PATCH") (build_path (one id)) (one id) one_path none
          (check_id (codes "Actor ID") id) (update w s id (some (only_is_disabled false)))
          (sent_body (
            wrap_body (codes "actor")
              (option_map update_actor_request_json (some (only_is_disabled false)))))
          log (update-Asks w s n ready id bytes (some (only_is_disabled false)) log),
    )
