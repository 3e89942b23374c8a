-- ===== src/ClientDevices.antt =====
-- clients.go: the Client devices.
pub mod Guards
pub mod Requests
pub mod Types
use firezone_go.ClientDevices.Types.{
  ClientDevice, zero_client_device, client_device_fields, UpdateClientRequest,
  update_client_request_json, ClientListOptions, zero_client_list_options,
}
use firezone_go.Prelude.{
  Bool, true, false, not, List, [], ◌∷◌, ◌++◌, Option, none, some, Str, codes, str_eq,
  if◌then◌else◌, map, ℕ,
}
use firezone_go.Prelude.Int.{ℤ, pos}
use firezone_go.Calls.{check, ◌>>◌, or_zero, wrap_body, do_into, do_only, do_list}
use firezone_go.Client.{Client}
use firezone_go.Go.Json.{arr, items, Json}
use firezone_go.Go.Json.Decode.{dec_struct}
use firezone_go.Go.Json.Encode.{array}
use firezone_go.Go.Values.{Values, set}
use firezone_go.Http.{World, M, ◌>>=◌, lift, pure}
use firezone_go.Path.{check_id, build_path}
use firezone_go.Query.{ListOptions, Page, filter_query, list_options_to_query}
use firezone_go.Prelude.{option_map}

pub record ClientsService : Type 0 where
  pub client : Client

unfoldable pub client_query : Option ClientListOptions → Values
unfolding filter_query
client_query given =
    let opts = or_zero zero_client_list_options given in
    filter_query opts.list_options
      ((codes "name", opts.name) ∷ (codes "firezone_id", opts.firezone_id) ∷ [])

module _ (w : World) (s : ClientsService) where
  unfoldable pub get : Str → M ClientDevice
  unfolding check_id build_path do_into client_device_fields
  get id = do
    check (check_id (codes "Client ID") id)
    do_into w s.client (codes "GET") (build_path (codes "clients" ∷ id ∷ [])) none none
        (dec_struct client_device_fields) zero_client_device

  unfoldable pub list : Option ClientListOptions → M (Page ClientDevice)
  unfolding do_list client_device_fields client_query
  list opts = do
    do_list w s.client (codes "GET") (codes "clients") (client_query opts)
        (dec_struct client_device_fields) zero_client_device

  unfoldable pub update : Str → Option UpdateClientRequest → M ClientDevice
  unfolding check_id build_path wrap_body update_client_request_json do_into client_device_fields
  update id req = do
    check (check_id (codes "Client ID") id)
    body ← lift (wrap_body (codes "client") (option_map update_client_request_json req))
    do_into w s.client (codes "PATCH") (build_path (codes "clients" ∷ id ∷ [])) none body
        (dec_struct client_device_fields) zero_client_device

  unfoldable pub delete : Str → M (Unit {0})
  unfolding check_id build_path do_only
  delete id = do
    check (check_id (codes "Client ID") id)
    do_only w s.client (codes "DELETE") (build_path (codes "clients" ∷ id ∷ [])) none none

  unfoldable pub verify : Str → M ClientDevice
  unfolding check_id build_path do_into client_device_fields
  verify id = do
    check (check_id (codes "Client ID") id)
    do_into w s.client (codes "PUT") (build_path (codes "clients" ∷ id ∷ codes "verify" ∷ [])) none
        none (dec_struct client_device_fields) zero_client_device

  unfoldable pub unverify : Str → M ClientDevice
  unfolding check_id build_path do_into client_device_fields
  unverify id = do
    check (check_id (codes "Client ID") id)
    do_into w s.client (codes "PUT") (build_path (codes "clients" ∷ id ∷ codes "unverify" ∷ []))
        none none (dec_struct client_device_fields) zero_client_device
