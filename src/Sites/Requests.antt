-- ===== src/Sites/Requests.antt =====
-- The requests of the operations of sites.go.
use firezone_go.Prelude.{
  ℕ, Option, none, some, Str, codes, List, [], ◌∷◌, refl, IsBytes, option_map, arith,
}
use firezone_go.Calls.{wrap_body}
use firezone_go.Calls.Requests.{
  Ready, IsPath, Asks, sent_body, wrapped-Asks, do_list-Asks, checked_into, checked_only,
  checked_wrapped,
}
use firezone_go.Go.Json.Decode.{dec_struct}
use firezone_go.Http.{World, Log}
use firezone_go.Path.{check_id, build_path}
use firezone_go.Sites.{SitesService, site_query, get, list, create, update, delete}
use firezone_go.Sites.Types.{
  SiteListOptions, UpdateSiteRequest, update_site_request_json, site_fields, zero_site,
  CreateSiteRequest, create_site_request_json,
}

fixed-IsBytes : IsBytes (codes "sites")
fixed-IsBytes = ground arith

abbrev pub all : List Str
all = codes "sites" ∷ []

abbrev pub one : Str → List Str
one id = codes "sites" ∷ id ∷ []

all-IsPath : IsPath (codes "sites") all
unfolding build_path firezone_go.Go.Escape.escape firezone_go.Go.Strings.join
all-IsPath = record { built = refl; some_segment = λ e. cc; bytes = (fixed-IsBytes, tt) }

one-IsPath : (id : Str) → IsBytes id → IsPath (build_path (one id)) (one id)
one-IsPath id h = record { built = refl; some_segment = λ e. cc; bytes = (fixed-IsBytes, (h, tt)) }

update-Asks :
    (w : World) (s : SitesService) (n : ℕ) (ready : Ready w s.client n) (id : Str)
    (bytes : IsBytes id) (change : Option UpdateSiteRequest) (log : Log)
    → Asks s.client n
        (codes "PATCH")
        (one id)
        none
        (sent_body (wrap_body (codes "site") (option_map update_site_request_json change)))
        log
        (update w s id change log).1
unfolding update
update-Asks w s n ready id bytes change log =
    checked_wrapped w s.client n ready (codes "PATCH") (build_path (one id)) (one id)
      (one-IsPath id bytes) (check_id (codes "site ID") id)
      (wrap_body (codes "site") (option_map update_site_request_json change))
      (dec_struct site_fields) zero_site log

-- With a client that is ready with a budget of `n` retries and an ID of bytes, every operation on
-- the Sites asks for nothing but its request, at most `n + 1` times, and once if retries are
-- disabled, whatever is answered: getting, changing and deleting one ask for GET, PATCH and DELETE
-- of "sites" and the ID, listing asks for GET of "sites" with the query of the options, and
-- creating asks for POST of "sites". The encoded request is the body where there is one, and
-- nothing else has a body.
site_requests_lem :
    (w : World) (s : SitesService) (n : ℕ) (id : Str) (opts : Option SiteListOptions)
    (new : Option CreateSiteRequest) (change : Option UpdateSiteRequest) (log : Log)
    → Ready w s.client n
    → IsBytes id
    → (Asks s.client n (codes "GET") (one id) none none log (get w s id log).1)
      × (Asks s.client n (codes "GET") all (some (site_query opts)) none log (list w s opts log).1)
      × (Asks s.client n
          (codes "POST")
          all
          none
          (sent_body (wrap_body (codes "site") (option_map create_site_request_json new)))
          log
          (create w s new log).1)
      × (Asks s.client n
          (codes "PATCH")
          (one id)
          none
          (sent_body (wrap_body (codes "site") (option_map update_site_request_json change)))
          log
          (update w s id change log).1)
      × (Asks s.client n (codes "DELETE") (one id) none none log (delete w s id log).1)
unfolding get list create delete
site_requests_lem w s n id opts new change log ready bytes =
    let one_path = one-IsPath id bytes in
    (
      checked_into w s.client n ready (codes "GET") (build_path (one id)) (one id) one_path none
          (check_id (codes "site ID") id) none (dec_struct site_fields) zero_site log,
      do_list-Asks w s.client n ready (codes "sites") all all-IsPath (site_query opts)
          (dec_struct site_fields) zero_site log,
      wrapped-Asks w s.client n ready (codes "POST") (codes "sites") all all-IsPath
          (wrap_body (codes "site") (option_map create_site_request_json new))
          (dec_struct site_fields) zero_site log,
      update-Asks w s n ready id bytes change log,
      checked_only w s.client n ready (codes "DELETE") (build_path (one id)) (one id) one_path none
          (check_id (codes "site ID") id) none log,
    )
