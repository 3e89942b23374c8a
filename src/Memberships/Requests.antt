-- ===== src/Memberships/Requests.antt =====
-- The requests of the operations of memberships.go.
use firezone_go.Prelude.{ℕ, Option, none, some, Str, codes, List, [], ◌∷◌, refl, IsBytes, arith}
use firezone_go.Calls.{wrap_body, check, ◌>>◌, do_into, do_list}
use firezone_go.Calls.Requests.{
  Ready, IsPath, Asks, sent_body, check-Asks, wrapped_mapped-Asks, do_list-Asks,
}
use firezone_go.Memberships.{MembershipsService, base_path, list, replace_all, patch}
use firezone_go.Memberships.Types.{
  group_member_fields, zero_group_member, membership_actor_ids_fields, zero_membership_actor_ids,
  membership_entry_json, membership_patch_body_json,
}
use firezone_go.Go.Json.{Json}
use firezone_go.Go.Json.Decode.{dec_struct}
use firezone_go.Go.Json.Encode.{array}
use firezone_go.Http.{World, Log, lift, ◌>>=◌, pure}
use firezone_go.Path.{check_id}
use firezone_go.Query.{ListOptions, list_options_to_query}

fixed-IsBytes : IsBytes (codes "groups") × IsBytes (codes "memberships")
fixed-IsBytes = ground arith

abbrev pub members_of : MembershipsService → List Str
members_of s = codes "groups" ∷ s.group_id ∷ codes "memberships" ∷ []

-- The members as an array of entries.
abbrev pub entries : List Str → Json
entries ids = array (λ id. membership_entry_json (record { actor_id = id })) ids

abbrev pub changes : List Str → List Str → Json
changes add remove = membership_patch_body_json (record { add = add; remove = remove })

module _ (w : World) (s : MembershipsService) (n : ℕ) (ready : Ready w s.client n)
    (bytes : IsBytes s.group_id) (log : Log) where
  members-IsPath : IsPath (base_path s) (members_of s)
  unfolding base_path
  members-IsPath = record {
    built = refl;
    some_segment = λ e. cc;
    bytes = (fixed-IsBytes.0, (bytes, (fixed-IsBytes.1, tt)));
  }

  list-Asks :
      (opts : Option ListOptions)
      → Asks s.client n
          (codes "GET")
          (members_of s)
          (some (list_options_to_query opts))
          none
          log
          (list w s opts log).1
  unfolding list
  list-Asks opts =
      check-Asks w s.client n ready (codes "GET") (base_path s) (members_of s) members-IsPath
        (some (list_options_to_query opts)) (check_id (codes "Group ID") s.group_id)
        (do_list w s.client (codes "GET") (base_path s) (list_options_to_query opts)
          (dec_struct group_member_fields) zero_group_member)
        none log
        (do_list-Asks w s.client n ready (base_path s) (members_of s) members-IsPath
          (list_options_to_query opts) (dec_struct group_member_fields) zero_group_member log)

  -- A call that sends a value under "memberships" and returns the IDs of the answer.
  sends-Asks :
      (method : Str) (value : Json)
      → Asks s.client n method
          (members_of s)
          none
          (sent_body (wrap_body (codes "memberships") (some value)))
          log
          ((check (check_id (codes "Group ID") s.group_id)
              >> (lift (wrap_body (codes "memberships") (some value)) >>= λ body.
                  do_into w s.client method
                    (base_path s)
                    none
                    body
                    (dec_struct membership_actor_ids_fields)
                    zero_membership_actor_ids
                  >>= λ result. pure result.actor_ids))
            log).1
  sends-Asks method value =
      let r = wrap_body (codes "memberships") (some value) in
      check-Asks w s.client n ready method (base_path s) (members_of s) members-IsPath none
        (check_id (codes "Group ID") s.group_id)
        (lift r >>= λ body.
          do_into w s.client method (base_path s) none body (dec_struct membership_actor_ids_fields)
            zero_membership_actor_ids
          >>= λ result. pure result.actor_ids)
        (sent_body r) log
        (wrapped_mapped-Asks w s.client n ready method (base_path s) (members_of s) members-IsPath r
          (dec_struct membership_actor_ids_fields) zero_membership_actor_ids
          (λ result. result.actor_ids) log)

-- With a client that is ready with a budget of `n` retries and an ID of bytes, every operation on
-- the members of a Group asks for nothing but its request, at most `n + 1` times, and once if
-- retries are disabled, whatever is answered: listing asks for GET of "groups", the ID and
-- "memberships" with the query of the options, replacing for PUT of the same with the array of the
-- entries as the body, and patching for PATCH of the same with the lists to add and to remove as
-- the body.
pub memberships_requests_lem :
    (w : World) (s : MembershipsService) (n : ℕ) (opts : Option ListOptions)
    (ids add remove : List Str) (log : Log)
    → Ready w s.client n
    → IsBytes s.group_id
    → (Asks s.client n
        (codes "GET")
        (members_of s)
        (some (list_options_to_query opts))
        none
        log
        (list w s opts log).1)
      × (Asks s.client n
          (codes "PUT")
          (members_of s)
          none
          (sent_body (wrap_body (codes "memberships") (some (entries ids))))
          log
          (replace_all w s ids log).1)
      × (Asks s.client n
          (codes "PATCH")
          (members_of s)
          none
          (sent_body (wrap_body (codes "memberships") (some (changes add remove))))
          log
          (patch w s add remove log).1)
unfolding replace_all patch
memberships_requests_lem w s n opts ids add remove log ready bytes = (
  list-Asks w s n ready bytes log opts,
  sends-Asks w s n ready bytes log (codes "PUT") (entries ids),
  sends-Asks w s n ready bytes log (codes "PATCH") (changes add remove),
)
