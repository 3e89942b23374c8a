-- ===== src/Sites/Guards.antt =====
-- What the service of sites.go refuses before it makes a request.
use firezone_go.Prelude.{true, Option, none, some, Str, codes, ◌≡◌, refl}
use firezone_go.Calls.{wrap_body}
use firezone_go.Calls.Laws.{nil_request, nil_request_lem}
use firezone_go.Errors.{GoError, err, is_error, err_nil_request}
use firezone_go.Sites.{SitesService, create, get, update, delete}
use firezone_go.Sites.Types.{UpdateSiteRequest}
use firezone_go.Http.{World, Log}
use firezone_go.Path.{check_id}

-- With a refused ID, every operation on one Site ends with the error of the check and without an
-- event.
refused_site_lem :
    (w : World) (s : SitesService) (e : GoError) (id : Str) (change : Option UpdateSiteRequest)
    (log : Log)
    → check_id (codes "site ID") id ≡ some e
    → (get w s id log ≡ (err e, log))
      × (update w s id change log ≡ (err e, log))
      × (delete w s id log ≡ (err e, log))
unfolding get update delete
refused_site_lem w s e id change log h = (rw h refl, rw h refl, rw h refl)

-- A nil request ends `create`, and `update` of an accepted ID, without an event, with an error that
-- `errors.Is` tells as `ErrNilRequest`.
nil_site_lem :
    (w : World) (s : SitesService) (id : Str) (log : Log)
    → check_id (codes "site ID") id ≡ none
    → (e : GoError) × (is_error e err_nil_request ≡ true)
      × (create w s none log ≡ (err e, log))
      × (update w s id none log ≡ (err e, log))
unfolding create update wrap_body
nil_site_lem w s id log h =
    (nil_request (codes "site"), nil_request_lem (codes "site"), refl, rw h refl)
