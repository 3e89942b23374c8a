-- ===== src/Groups/Requests.antt =====
-- The requests of the operations of groups.go.
use firezone_go.Prelude.{
  ℕ, Option, none, some, Str, codes, List, [], ◌∷◌, refl, IsBytes, option_map, arith,
}
use firezone_go.Calls.{wrap_body}
use firezone_go.Calls.Requests.{
  Ready, IsPath, Asks, sent_body, wrapped-Asks, do_list-Asks, checked_into, checked_only,
  checked_wrapped,
}
use firezone_go.Go.Json.Decode.{dec_struct}
use firezone_go.Http.{World, Log}
use firezone_go.Path.{check_id, build_path}
use firezone_go.Groups.{GroupsService, group_query, get, list, create, update, delete}
use firezone_go.Groups.Types.{
  GroupListOptions, UpdateGroupRequest, update_group_request_json, group_fields, zero_group,
  CreateGroupRequest, create_group_request_json,
}

fixed-IsBytes : IsBytes (codes "groups")
fixed-IsBytes = ground arith

abbrev pub all : List Str
all = codes "groups" ∷ []

abbrev pub one : Str → List Str
one id = codes "groups" ∷ id ∷ []

all-IsPath : IsPath (codes "groups") all
unfolding build_path firezone_go.Go.Escape.escape firezone_go.Go.Strings.join
all-IsPath = record { built = refl; some_segment = λ e. cc; bytes = (fixed-IsBytes, tt) }

one-IsPath : (id : Str) → IsBytes id → IsPath (build_path (one id)) (one id)
one-IsPath id h = record { built = refl; some_segment = λ e. cc; bytes = (fixed-IsBytes, (h, tt)) }

update-Asks :
    (w : World) (s : GroupsService) (n : ℕ) (ready : Ready w s.client n) (id : Str)
    (bytes : IsBytes id) (change : Option UpdateGroupRequest) (log : Log)
    → Asks s.client n
        (codes "PATCH")
        (one id)
        none
        (sent_body (wrap_body (codes "group") (option_map update_group_request_json change)))
        log
        (update w s id change log).1
unfolding update
update-Asks w s n ready id bytes change log =
    checked_wrapped w s.client n ready (codes "PATCH") (build_path (one id)) (one id)
      (one-IsPath id bytes) (check_id (codes "Group ID") id)
      (wrap_body (codes "group") (option_map update_group_request_json change))
      (dec_struct group_fields) zero_group log

-- With a client that is ready with a budget of `n` retries and an ID of bytes, every operation on
-- the Groups asks for nothing but its request, at most `n + 1` times, and once if retries are
-- disabled, whatever is answered: getting, changing and deleting one ask for GET, PATCH and DELETE
-- of "groups" and the ID, listing asks for GET of "groups" with the query of the options, and
-- creating asks for POST of "groups". The encoded request is the body where there is one, and
-- nothing else has a body.
group_requests_lem :
    (w : World) (s : GroupsService) (n : ℕ) (id : Str) (opts : Option GroupListOptions)
    (new : Option CreateGroupRequest) (change : Option UpdateGroupRequest) (log : Log)
    → Ready w s.client n
    → IsBytes id
    → (Asks s.client n (codes "GET") (one id) none none log (get w s id log).1)
      × (Asks s.client n (codes "GET") all (some (group_query opts)) none log (list w s opts log).1)
      × (Asks s.client n
          (codes "POST")
          all
          none
          (sent_body (wrap_body (codes "group") (option_map create_group_request_json new)))
          log
          (create w s new log).1)
      × (Asks s.client n
          (codes "PATCH")
          (one id)
          none
          (sent_body (wrap_body (codes "group") (option_map update_group_request_json change)))
          log
          (update w s id change log).1)
      × (Asks s.client n (codes "DELETE") (one id) none none log (delete w s id log).1)
unfolding get list create delete
group_requests_lem w s n id opts new change log ready bytes =
    let one_path = one-IsPath id bytes in
    (
      checked_into w s.client n ready (codes "GET") (build_path (one id)) (one id) one_path none
          (check_id (codes "Group ID") id) none (dec_struct group_fields) zero_group log,
      do_list-Asks w s.client n ready (codes "groups") all all-IsPath (group_query opts)
          (dec_struct group_fields) zero_group log,
      wrapped-Asks w s.client n ready (codes "POST") (codes "groups") all all-IsPath
          (wrap_body (codes "group") (option_map create_group_request_json new))
          (dec_struct group_fields) zero_group log,
      update-Asks w s n ready id bytes change log,
      checked_only w s.client n ready (codes "DELETE") (build_path (one id)) (one id) one_path none
          (check_id (codes "Group ID") id) none log,
    )
