-- ===== src/Gateways/Guards.antt =====
-- What the Gateways service refuses before it makes a request.
use firezone_go.Prelude.{true, [], ◌∷◌, Option, none, some, Str, codes, str_eq, ◌≡◌, refl}
use firezone_go.Calls.{wrap_body}
use firezone_go.Calls.Laws.{nil_request, nil_request_lem}
use firezone_go.Errors.{
  GoError, errorf, errorf_w, sentinel, err, is_error, err_nil_request, err_missing_id,
}
use firezone_go.Gateways.{GatewaysService, get, list, provision, update, rotate_token, delete}
use firezone_go.Gateways.Types.{GatewayListOptions, ProvisionGatewayRequest, UpdateGatewayRequest}
use firezone_go.Http.{World, Log}
use firezone_go.Path.{check_id}

-- The IDs that cannot be a segment of a path, and what each is refused with as a Site's.
pub data RefusedAs : Str → GoError → Type 0 where
  missing :
      RefusedAs
        (codes "")
        (errorf_w (codes "firezone: %s %w") (codes "site ID" ∷ []) (sentinel err_missing_id))
  same_directory : RefusedAs (codes ".") (
      errorf
        (codes "firezone: %s %q is not a valid path segment")
        (codes "site ID" ∷ codes "." ∷ []))
  parent_directory : RefusedAs (codes "..") (
      errorf
        (codes "firezone: %s %q is not a valid path segment")
        (codes "site ID" ∷ codes ".." ∷ []))

check_id-RefusedAs :
    (id : Str) (e : GoError) → RefusedAs id e → check_id (codes "site ID") id ≡ some e
unfolding check_id
check_id-RefusedAs _ _ missing = refl
check_id-RefusedAs _ _ same_directory = refl
check_id-RefusedAs _ _ parent_directory = refl

is_error-RefusedAs :
    (id : Str) (e : GoError) → RefusedAs id e → is_error e err_missing_id ≡ str_eq id (codes "")
unfolding is_error
is_error-RefusedAs _ _ missing = refl
is_error-RefusedAs _ _ same_directory = refl
is_error-RefusedAs _ _ parent_directory = refl

-- In a service whose Site ID is "", "." or "..", every operation ends without an event, whatever its
-- other arguments are: with the error that the site ID is missing, which `errors.Is` tells as
-- `ErrMissingID`, for "", and with the error that the site ID is not a valid path segment, which it
-- does not tell so, for the others.
pub refused_site_id_lem :
    (w : World) (s : GatewaysService) (e : GoError) (id : Str) (opts : Option GatewayListOptions)
    (new : Option ProvisionGatewayRequest) (change : Option UpdateGatewayRequest) (log : Log)
    → RefusedAs s.site_id e
    → (is_error e err_missing_id ≡ str_eq s.site_id (codes ""))
      × (get w s id log ≡ (err e, log))
      × (list w s opts log ≡ (err e, log))
      × (provision w s new log ≡ (err e, log))
      × (update w s id change log ≡ (err e, log))
      × (rotate_token w s id log ≡ (err e, log))
      × (delete w s id log ≡ (err e, log))
unfolding get list provision update rotate_token delete
refused_site_id_lem w s e id opts new change log refused_as =
    let h = check_id-RefusedAs s.site_id e refused_as in
    (
      is_error-RefusedAs s.site_id e refused_as,
      rw h refl,
      rw h refl,
      rw h refl,
      rw h refl,
      rw h refl,
      rw h refl,
    )

-- If the ID of the Site is accepted and the ID of the Gateway is refused, every operation on one
-- Gateway ends with the error of the check and without an event.
refused_gateway_lem :
    (w : World) (s : GatewaysService) (e : GoError) (id : Str)
    (change : Option UpdateGatewayRequest) (log : Log)
    → check_id (codes "site ID") s.site_id ≡ none
    → check_id (codes "Gateway ID") id ≡ some e
    → (get w s id log ≡ (err e, log))
      × (update w s id change log ≡ (err e, log))
      × (rotate_token w s id log ≡ (err e, log))
      × (delete w s id log ≡ (err e, log))
unfolding get update rotate_token delete
refused_gateway_lem w s e id change log site h =
    (rw (site, h) refl, rw (site, h) refl, rw (site, h) refl, rw (site, h) refl)

-- With accepted IDs, a nil request ends `provision` and `update` without an event, with an error that
-- `errors.Is` tells as `ErrNilRequest`.
pub nil_gateway_lem :
    (w : World) (s : GatewaysService) (id : Str) (log : Log)
    → check_id (codes "site ID") s.site_id ≡ none
    → check_id (codes "Gateway ID") id ≡ none
    → (e : GoError) × (is_error e err_nil_request ≡ true)
      × (provision w s none log ≡ (err e, log))
      × (update w s id none log ≡ (err e, log))
unfolding provision update wrap_body
nil_gateway_lem w s id log site h = (
  nil_request (codes "gateway"),
  nil_request_lem (codes "gateway"),
  rw site refl,
  rw (site, h) refl,
)
