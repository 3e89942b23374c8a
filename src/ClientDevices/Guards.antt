-- ===== src/ClientDevices/Guards.antt =====
-- What the service of clients.go refuses before it makes a request.
use firezone_go.Prelude.{true, Option, none, some, Str, codes, ◌≡◌, refl}
use firezone_go.Calls.{wrap_body}
use firezone_go.Calls.Laws.{nil_request, nil_request_lem}
use firezone_go.Errors.{GoError, err, is_error, err_nil_request}
use firezone_go.ClientDevices.{ClientsService, get, update, delete, verify, unverify}
use firezone_go.ClientDevices.Types.{UpdateClientRequest}
use firezone_go.Http.{World, Log}
use firezone_go.Path.{check_id}

-- With a refused ID, every operation on one Client ends with the error of the check and without an
-- event.
refused_client_lem :
    (w : World) (s : ClientsService) (e : GoError) (id : Str) (change : Option UpdateClientRequest)
    (log : Log)
    → check_id (codes "Client ID") id ≡ some e
    → (get w s id log ≡ (err e, log))
      × (update w s id change log ≡ (err e, log))
      × (delete w s id log ≡ (err e, log))
      × (verify w s id log ≡ (err e, log))
      × (unverify w s id log ≡ (err e, log))
unfolding get update delete verify unverify
refused_client_lem w s e id change log h = (rw h refl, rw h refl, rw h refl, rw h refl, rw h refl)

-- A nil request ends `update` of an accepted ID without an event, with an error that `errors.Is`
-- tells as `ErrNilRequest`.
nil_client_lem :
    (w : World) (s : ClientsService) (id : Str) (log : Log)
    → check_id (codes "Client ID") id ≡ none
    → (e : GoError) × (is_error e err_nil_request ≡ true) × (update w s id none log ≡ (err e, log))
unfolding update wrap_body
nil_client_lem w s id log h =
    (nil_request (codes "client"), nil_request_lem (codes "client"), rw h refl)
