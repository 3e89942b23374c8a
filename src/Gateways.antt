-- ===== src/Gateways.antt =====
-- gateways.go: the Gateways of a Site, and the life of their tokens.
pub mod Guards
pub mod Paths
pub mod Requests
pub mod Types
use firezone_go.Gateways.Types.{
  Gateway, zero_gateway, gateway_fields, ProvisionedGateway, zero_provisioned_gateway,
  provisioned_gateway_fields, ProvisionGatewayRequest, provision_gateway_request_json,
  RotatedGatewayToken, zero_rotated_gateway_token, rotated_gateway_token_fields,
  UpdateGatewayRequest, update_gateway_request_json, GatewayListOptions, zero_gateway_list_options,
}
use firezone_go.Prelude.{
  Bool, true, false, not, List, [], ◌∷◌, ◌++◌, Option, none, some, Str, codes, str_eq,
  if◌then◌else◌, map, ℕ,
}
use firezone_go.Prelude.Int.{ℤ, pos}
use firezone_go.Calls.{check, ◌>>◌, or_zero, wrap_body, do_into, do_only, do_list}
use firezone_go.Client.{Client}
use firezone_go.Go.Json.{arr, items, Json}
use firezone_go.Go.Json.Decode.{dec_struct}
use firezone_go.Go.Json.Encode.{array}
use firezone_go.Go.Values.{Values, set}
use firezone_go.Http.{World, M, ◌>>=◌, lift, pure}
use firezone_go.Path.{check_id, build_path}
use firezone_go.Query.{ListOptions, Page, filter_query, list_options_to_query}
use firezone_go.Prelude.{option_map}

pub record GatewaysService : Type 0 where
  pub client : Client
  pub site_id : Str

unfoldable pub base_path : GatewaysService → List Str → Str
unfolding build_path
base_path s segments = build_path ((codes "sites" ∷ s.site_id ∷ codes "gateways" ∷ []) ++ segments)

unfoldable pub gateway_query : Option GatewayListOptions → Values
unfolding filter_query
gateway_query given =
    let opts = or_zero zero_gateway_list_options given in
    filter_query opts.list_options
      ((codes "name", opts.name) ∷ (codes "ipv4", opts.ipv4) ∷ (codes "ipv6", opts.ipv6) ∷ [])

module _ (w : World) (s : GatewaysService) where
  unfoldable pub get : Str → M Gateway
  unfolding check_id base_path do_into gateway_fields
  get id = do
    check (check_id (codes "site ID") s.site_id)
    check (check_id (codes "Gateway ID") id)
    do_into w s.client (codes "GET") (base_path s (id ∷ [])) none none (dec_struct gateway_fields)
        zero_gateway

  unfoldable pub list : Option GatewayListOptions → M (Page Gateway)
  unfolding check_id base_path do_list gateway_fields gateway_query
  list opts = do
    check (check_id (codes "site ID") s.site_id)
    do_list w s.client (codes "GET") (base_path s ([])) (gateway_query opts)
        (dec_struct gateway_fields) zero_gateway

  unfoldable pub provision : Option ProvisionGatewayRequest → M ProvisionedGateway
  unfolding check_id base_path wrap_body provision_gateway_request_json do_into
      provisioned_gateway_fields
  provision req = do
    check (check_id (codes "site ID") s.site_id)
    body ← lift (wrap_body (codes "gateway") (option_map provision_gateway_request_json req))
    do_into w s.client (codes "POST") (base_path s ([])) none body
        (dec_struct provisioned_gateway_fields) zero_provisioned_gateway

  unfoldable pub update : Str → Option UpdateGatewayRequest → M Gateway
  unfolding check_id base_path wrap_body update_gateway_request_json do_into gateway_fields
  update id req = do
    check (check_id (codes "site ID") s.site_id)
    check (check_id (codes "Gateway ID") id)
    body ← lift (wrap_body (codes "gateway") (option_map update_gateway_request_json req))
    do_into w s.client (codes "PATCH") (base_path s (id ∷ [])) none body (dec_struct gateway_fields)
        zero_gateway

  unfoldable pub rotate_token : Str → M RotatedGatewayToken
  unfolding check_id base_path do_into rotated_gateway_token_fields
  rotate_token id = do
    check (check_id (codes "site ID") s.site_id)
    check (check_id (codes "Gateway ID") id)
    do_into w s.client (codes "POST") (base_path s (id ∷ codes "token" ∷ codes "rotate" ∷ [])) none
        none (dec_struct rotated_gateway_token_fields) zero_rotated_gateway_token

  unfoldable pub delete : Str → M (Unit {0})
  unfolding check_id base_path do_only
  delete id = do
    check (check_id (codes "site ID") s.site_id)
    check (check_id (codes "Gateway ID") id)
    do_only w s.client (codes "DELETE") (base_path s (id ∷ [])) none none
