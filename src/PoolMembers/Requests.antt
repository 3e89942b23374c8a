-- ===== src/PoolMembers/Requests.antt =====
-- The requests of the operations of pool_members.go.
use firezone_go.Prelude.{ℕ, Option, none, some, Str, codes, List, [], ◌∷◌, refl, IsBytes, arith}
use firezone_go.Calls.{wrap_body, check, ◌>>◌, do_into, do_list}
use firezone_go.Calls.Requests.{
  Ready, IsPath, Asks, sent_body, check-Asks, wrapped_mapped-Asks, do_list-Asks,
}
use firezone_go.PoolMembers.{PoolMembersService, base_path, list, replace_all, patch}
use firezone_go.PoolMembers.Types.{
  pool_member_fields, zero_pool_member, pool_member_device_ids_fields, zero_pool_member_device_ids,
  pool_member_entry_json, pool_member_patch_body_json,
}
use firezone_go.Go.Json.{Json}
use firezone_go.Go.Json.Decode.{dec_struct}
use firezone_go.Go.Json.Encode.{array}
use firezone_go.Http.{World, Log, lift, ◌>>=◌, pure}
use firezone_go.Path.{check_id}
use firezone_go.Query.{ListOptions, list_options_to_query}

fixed-IsBytes : IsBytes (codes "resources") × IsBytes (codes "pool_members")
fixed-IsBytes = ground arith

abbrev pub members_of : PoolMembersService → List Str
members_of s = codes "resources" ∷ s.resource_id ∷ codes "pool_members" ∷ []

-- The members as an array of entries.
abbrev pub entries : List Str → Json
entries ids = array (λ id. pool_member_entry_json (record { device_id = id })) ids

abbrev pub changes : List Str → List Str → Json
changes add remove = pool_member_patch_body_json (record { add = add; remove = remove })

module _ (w : World) (s : PoolMembersService) (n : ℕ) (ready : Ready w s.client n)
    (bytes : IsBytes s.resource_id) (log : Log) where
  members-IsPath : IsPath (base_path s) (members_of s)
  unfolding base_path
  members-IsPath = record {
    built = refl;
    some_segment = λ e. cc;
    bytes = (fixed-IsBytes.0, (bytes, (fixed-IsBytes.1, tt)));
  }

  list-Asks :
      (opts : Option ListOptions)
      → Asks s.client n
          (codes "GET")
          (members_of s)
          (some (list_options_to_query opts))
          none
          log
          (list w s opts log).1
  unfolding list
  list-Asks opts =
      check-Asks w s.client n ready (codes "GET") (base_path s) (members_of s) members-IsPath
        (some (list_options_to_query opts)) (check_id (codes "Resource ID") s.resource_id)
        (do_list w s.client (codes "GET") (base_path s) (list_options_to_query opts)
          (dec_struct pool_member_fields) zero_pool_member)
        none log
        (do_list-Asks w s.client n ready (base_path s) (members_of s) members-IsPath
          (list_options_to_query opts) (dec_struct pool_member_fields) zero_pool_member log)

  -- A call that sends a value under "pool_members" and returns the IDs of the answer.
  sends-Asks :
      (method : Str) (value : Json)
      → Asks s.client n method
          (members_of s)
          none
          (sent_body (wrap_body (codes "pool_members") (some value)))
          log
          ((check (check_id (codes "Resource ID") s.resource_id)
              >> (lift (wrap_body (codes "pool_members") (some value)) >>= λ body.
                  do_into w s.client method
                    (base_path s)
                    none
                    body
                    (dec_struct pool_member_device_ids_fields)
                    zero_pool_member_device_ids
                  >>= λ result. pure result.device_ids))
            log).1
  sends-Asks method value =
      let r = wrap_body (codes "pool_members") (some value) in
      check-Asks w s.client n ready method (base_path s) (members_of s) members-IsPath none
        (check_id (codes "Resource ID") s.resource_id)
        (lift r >>= λ body.
          do_into w s.client method (base_path s) none body
            (dec_struct pool_member_device_ids_fields) zero_pool_member_device_ids
          >>= λ result. pure result.device_ids)
        (sent_body r) log
        (wrapped_mapped-Asks w s.client n ready method (base_path s) (members_of s) members-IsPath r
          (dec_struct pool_member_device_ids_fields) zero_pool_member_device_ids
          (λ result. result.device_ids) log)

-- With a client that is ready with a budget of `n` retries and an ID of bytes, every operation on
-- the members of a Resource asks for nothing but its request, at most `n + 1` times, and once if
-- retries are disabled, whatever is answered: listing asks for GET of "resources", the ID and
-- "pool_members" with the query of the options, replacing for PUT of the same with the array of
-- the entries as the body, and patching for PATCH of the same with the lists to add and to remove
-- as the body.
pool_members_requests_lem :
    (w : World) (s : PoolMembersService) (n : ℕ) (opts : Option ListOptions)
    (ids add remove : List Str) (log : Log)
    → Ready w s.client n
    → IsBytes s.resource_id
    → (Asks s.client n
        (codes "GET")
        (members_of s)
        (some (list_options_to_query opts))
        none
        log
        (list w s opts log).1)
      × (Asks s.client n
          (codes "PUT")
          (members_of s)
          none
          (sent_body (wrap_body (codes "pool_members") (some (entries ids))))
          log
          (replace_all w s ids log).1)
      × (Asks s.client n
          (codes "PATCH")
          (members_of s)
          none
          (sent_body (wrap_body (codes "pool_members") (some (changes add remove))))
          log
          (patch w s add remove log).1)
unfolding replace_all patch
pool_members_requests_lem w s n opts ids add remove log ready bytes = (
  list-Asks w s n ready bytes log opts,
  sends-Asks w s n ready bytes log (codes "PUT") (entries ids),
  sends-Asks w s n ready bytes log (codes "PATCH") (changes add remove),
)
