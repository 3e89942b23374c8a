-- ===== src/Actors/Guards.antt =====
-- What the service of actors.go refuses before it makes a request.
use firezone_go.Prelude.{true, Option, none, some, Str, codes, ◌≡◌, refl}
use firezone_go.Calls.{wrap_body}
use firezone_go.Calls.Laws.{nil_request, nil_request_lem}
use firezone_go.Errors.{GoError, err, is_error, err_nil_request}
use firezone_go.Actors.{ActorsService, create, get, update, delete, disable, enable}
use firezone_go.Actors.Types.{UpdateActorRequest}
use firezone_go.Http.{World, Log}
use firezone_go.Path.{check_id}

-- With a refused ID, every operation on one Actor ends with the error of the check and without an
-- event.
refused_actor_lem :
    (w : World) (s : ActorsService) (e : GoError) (id : Str) (change : Option UpdateActorRequest)
    (log : Log)
    → check_id (codes "Actor ID") id ≡ some e
    → (get w s id log ≡ (err e, log))
      × (update w s id change log ≡ (err e, log))
      × (delete w s id log ≡ (err e, log))
      × (disable w s id log ≡ (err e, log))
      × (enable w s id log ≡ (err e, log))
unfolding get update delete disable enable
refused_actor_lem w s e id change log h = (rw h refl, rw h refl, rw h refl, rw h refl, rw h refl)

-- A nil request ends `create`, and `update` of an accepted ID, without an event, with an error that
-- `errors.Is` tells as `ErrNilRequest`.
nil_actor_lem :
    (w : World) (s : ActorsService) (id : Str) (log : Log)
    → check_id (codes "Actor ID") id ≡ none
    → (e : GoError) × (is_error e err_nil_request ≡ true)
      × (create w s none log ≡ (err e, log))
      × (update w s id none log ≡ (err e, log))
unfolding create update wrap_body
nil_actor_lem w s id log h =
    (nil_request (codes "actor"), nil_request_lem (codes "actor"), refl, rw h refl)
