-- ===== src/Resources/Requests.antt =====
-- The requests of the operations of resources.go.
use firezone_go.Prelude.{
  ℕ, suc, ◌≤◌, ◌≡◌, Option, none, some, Str, codes, List, [], ◌∷◌, refl, IsBytes, option_map, arith,
}
use firezone_go.Calls.{wrap_body}
use firezone_go.Calls.Requests.{
  Ready, IsPath, Asks, sent_body, wrapped-Asks, do_list-Asks, checked_into, checked_only,
  checked_wrapped,
}
use firezone_go.Calls.Sent.{checked_wrapped_sends}
use firezone_go.Errors.{ok}
use firezone_go.Go.Json.Decode.{dec_struct}
use firezone_go.Http.{World, Log, Request, RequestBody}
use firezone_go.Path.{check_id, build_path}
use firezone_go.Retry.Trace.{sends}
use firezone_go.Resources.{ResourcesService, resource_query, get, list, create, update, delete}
use firezone_go.Resources.Types.{
  ResourceListOptions, UpdateResourceRequest, update_resource_request_json, resource_fields,
  zero_resource, CreateResourceRequest, create_resource_request_json,
}

fixed-IsBytes : IsBytes (codes "resources")
fixed-IsBytes = ground arith

abbrev pub all : List Str
all = codes "resources" ∷ []

abbrev pub one : Str → List Str
one id = codes "resources" ∷ id ∷ []

all-IsPath : IsPath (codes "resources") all
unfolding build_path firezone_go.Go.Escape.escape firezone_go.Go.Strings.join
all-IsPath = record { built = refl; some_segment = λ e. cc; bytes = (fixed-IsBytes, tt) }

one-IsPath : (id : Str) → IsBytes id → IsPath (build_path (one id)) (one id)
one-IsPath id h = record { built = refl; some_segment = λ e. cc; bytes = (fixed-IsBytes, (h, tt)) }

pub update-Asks :
    (w : World) (s : ResourcesService) (n : ℕ) (ready : Ready w s.client n) (id : Str)
    (bytes : IsBytes id) (change : Option UpdateResourceRequest) (log : Log)
    → Asks s.client n
        (codes "PATCH")
        (one id)
        none
        (sent_body (wrap_body (codes "resource") (option_map update_resource_request_json change)))
        log
        (update w s id change log).1
unfolding update
update-Asks w s n ready id bytes change log =
    checked_wrapped w s.client n ready (codes "PATCH") (build_path (one id)) (one id)
      (one-IsPath id bytes) (check_id (codes "Resource ID") id)
      (wrap_body (codes "resource") (option_map update_resource_request_json change))
      (dec_struct resource_fields) zero_resource log

-- A change with an accepted ID is sent.
pub sends-update :
    (w : World) (s : ResourcesService) (n : ℕ) (ready : Ready w s.client n) (id : Str)
    (bytes : IsBytes id) (change : UpdateResourceRequest) (body : RequestBody) (log : Log)
    → check_id (codes "Resource ID") id ≡ none
    → ((req : Request) → w.refusal req ≡ none)
    → wrap_body (codes "resource") (some (update_resource_request_json change)) ≡ ok body
    → suc (sends log) ≤ sends (update w s id (some change) log).1
unfolding update
sends-update w s n ready id bytes change body log accepted accepts wrapped =
    checked_wrapped_sends w s.client n ready (codes "PATCH") (build_path (one id)) (one id)
      (one-IsPath id bytes) accepts (check_id (codes "Resource ID") id)
      (wrap_body (codes "resource") (some (update_resource_request_json change))) body
      (dec_struct resource_fields) zero_resource log accepted wrapped

-- With a client that is ready with a budget of `n` retries and an ID of bytes, every operation on
-- the Resources asks for nothing but its request, at most `n + 1` times, and once if retries are
-- disabled, whatever is answered: getting, changing and deleting one ask for GET, PATCH and DELETE
-- of "resources" and the ID, listing asks for GET of "resources" with the query of the options,
-- and creating asks for POST of "resources". The encoded request is the body where there is one,
-- and nothing else has a body.
pub resource_requests_lem :
    (w : World) (s : ResourcesService) (n : ℕ) (id : Str) (opts : Option ResourceListOptions)
    (new : Option CreateResourceRequest) (change : Option UpdateResourceRequest) (log : Log)
    → Ready w s.client n
    → IsBytes id
    → (Asks s.client n (codes "GET") (one id) none none log (get w s id log).1)
      × (Asks s.client n
          (codes "GET")
          all
          (some (resource_query opts))
          none
          log
          (list w s opts log).1)
      × (Asks s.client n
          (codes "POST")
          all
          none
          (sent_body (wrap_body (codes "resource") (option_map create_resource_request_json new)))
          log
          (create w s new log).1)
      × (Asks s.client n
          (codes "PATCH")
          (one id)
          none
          (sent_body
            (wrap_body (codes "resource") (option_map update_resource_request_json change)))
          log
          (update w s id change log).1)
      × (Asks s.client n (codes "DELETE") (one id) none none log (delete w s id log).1)
unfolding get list create delete
resource_requests_lem w s n id opts new change log ready bytes =
    let one_path = one-IsPath id bytes in
    (
      checked_into w s.client n ready (codes "GET") (build_path (one id)) (one id) one_path none
          (check_id (codes "Resource ID") id) none (dec_struct resource_fields) zero_resource log,
      do_list-Asks w s.client n ready (codes "resources") all all-IsPath (resource_query opts)
          (dec_struct resource_fields) zero_resource log,
      wrapped-Asks w s.client n ready (codes "POST") (codes "resources") all all-IsPath
          (wrap_body (codes "resource") (option_map create_resource_request_json new))
          (dec_struct resource_fields) zero_resource log,
      update-Asks w s n ready id bytes change log,
      checked_only w s.client n ready (codes "DELETE") (build_path (one id)) (one id) one_path none
          (check_id (codes "Resource ID") id) none log,
    )
