-- ===== src/Actors.antt =====
-- actors.go: the Actors.
pub mod Guards
pub mod Patch
pub mod Toggle
pub mod Requests
pub mod Types
use firezone_go.Actors.Types.{
  Actor, zero_actor, actor_fields, CreateActorRequest, create_actor_request_json,
  UpdateActorRequest, update_actor_request_json, ActorListOptions, zero_actor_list_options,
}
use firezone_go.Prelude.{
  Bool, true, false, not, List, [], ◌∷◌, ◌++◌, Option, none, some, Str, codes, str_eq,
  if◌then◌else◌, map, ℕ,
}
use firezone_go.Prelude.Int.{ℤ, pos}
use firezone_go.Calls.{check, ◌>>◌, or_zero, wrap_body, do_into, do_only, do_list}
use firezone_go.Client.{Client}
use firezone_go.Go.Json.{arr, items, Json}
use firezone_go.Go.Json.Decode.{dec_struct}
use firezone_go.Go.Json.Encode.{array}
use firezone_go.Go.Values.{Values, set}
use firezone_go.Http.{World, M, ◌>>=◌, lift, pure}
use firezone_go.Path.{check_id, build_path}
use firezone_go.Query.{ListOptions, Page, filter_query, list_options_to_query}
use firezone_go.Prelude.{option_map}

pub record ActorsService : Type 0 where
  pub client : Client

unfoldable pub actor_query : Option ActorListOptions → Values
unfolding filter_query
actor_query given =
    let opts = or_zero zero_actor_list_options given in
    filter_query opts.list_options
      ((codes "name", opts.name) ∷ (codes "email", opts.email) ∷ (codes "type", opts.type) ∷ [])

abbrev pub only_is_disabled : Bool → UpdateActorRequest
only_is_disabled disabled = record {
  name = [];
  type = [];
  email = none;
  allow_email_otp_sign_in = none;
  is_disabled = some disabled;
}

module _ (w : World) (s : ActorsService) where
  unfoldable pub get : Str → M Actor
  unfolding check_id build_path do_into actor_fields
  get id = do
    check (check_id (codes "Actor ID") id)
    do_into w s.client (codes "GET") (build_path (codes "actors" ∷ id ∷ [])) none none
        (dec_struct actor_fields) zero_actor

  unfoldable pub list : Option ActorListOptions → M (Page Actor)
  unfolding do_list actor_fields actor_query
  list opts = do
    do_list w s.client (codes "GET") (codes "actors") (actor_query opts) (dec_struct actor_fields)
        zero_actor

  unfoldable pub create : Option CreateActorRequest → M Actor
  unfolding wrap_body create_actor_request_json do_into actor_fields
  create req = do
    body ← lift (wrap_body (codes "actor") (option_map create_actor_request_json req))
    do_into w s.client (codes "POST") (codes "actors") none body (dec_struct actor_fields)
        zero_actor

  unfoldable pub update : Str → Option UpdateActorRequest → M Actor
  unfolding check_id build_path wrap_body update_actor_request_json do_into actor_fields
  update id req = do
    check (check_id (codes "Actor ID") id)
    body ← lift (wrap_body (codes "actor") (option_map update_actor_request_json req))
    do_into w s.client (codes "PATCH") (build_path (codes "actors" ∷ id ∷ [])) none body
        (dec_struct actor_fields) zero_actor

  unfoldable pub delete : Str → M (Unit {0})
  unfolding check_id build_path do_only
  delete id = do
    check (check_id (codes "Actor ID") id)
    do_only w s.client (codes "DELETE") (build_path (codes "actors" ∷ id ∷ [])) none none

  unfoldable pub disable : Str → M Actor
  unfolding check_id update
  disable id = do check (check_id (codes "Actor ID") id); update id (some (only_is_disabled true))

  unfoldable pub enable : Str → M Actor
  unfolding check_id update
  enable id = do check (check_id (codes "Actor ID") id); update id (some (only_is_disabled false))
