-- ===== src/AuthProviders/Okta.antt =====
-- auth_providers.go: the Okta auth providers.
use firezone_go.Prelude.{Bool, false, [], ◌∷◌, Option, none, some, Str, codes}
use firezone_go.AuthProviders.{
  AuthProvider, zero_auth_provider, auth_provider_fields, AuthProviderListOptions,
  auth_provider_query,
}
use firezone_go.Calls.{check, ◌>>◌, do_into, do_list}
use firezone_go.Client.{Client}
use firezone_go.Go.Json.{Fields}
use firezone_go.Go.Json.Decode.{dec_struct, dec_string, dec_bool, get_field, ◌>>=◌}
use firezone_go.Http.{World, M}
use firezone_go.Path.{check_id, build_path}
use firezone_go.Query.{Page}

pub record OktaAuthProvider : Type 0 where
  pub auth_provider : AuthProvider
  pub is_default : Bool
  pub client_id : Str
  pub okta_domain : Str

abbrev pub zero_okta_auth_provider : OktaAuthProvider
zero_okta_auth_provider = record {
  auth_provider = zero_auth_provider;
  is_default = false;
  client_id = [];
  okta_domain = [];
}

-- The fields of the embedded `AuthProvider` are read from the same object.
unfoldable pub okta_auth_provider_fields : Fields → OktaAuthProvider → Option OktaAuthProvider
unfolding auth_provider_fields get_field dec_string dec_bool
okta_auth_provider_fields fs r = do
  auth_provider ← auth_provider_fields fs r.auth_provider
  is_default ← get_field (codes "is_default") dec_bool fs r.is_default
  client_id ← get_field (codes "client_id") dec_string fs r.client_id
  okta_domain ← get_field (codes "okta_domain") dec_string fs r.okta_domain
  some (record {
    auth_provider = auth_provider;
    is_default = is_default;
    client_id = client_id;
    okta_domain = okta_domain;
  })

pub record OktaAuthProvidersService : Type 0 where
  pub client : Client

module _ (w : World) (s : OktaAuthProvidersService) where
  unfoldable pub get : Str → M OktaAuthProvider
  unfolding check_id build_path do_into okta_auth_provider_fields
  get id = do
    check (check_id (codes "auth provider ID") id)
    do_into w s.client (codes "GET") (build_path (codes "okta_auth_providers" ∷ id ∷ [])) none none
        (dec_struct okta_auth_provider_fields) zero_okta_auth_provider

  unfoldable pub list : Option AuthProviderListOptions → M (Page OktaAuthProvider)
  unfolding do_list okta_auth_provider_fields auth_provider_query
  list opts = do
    do_list w s.client (codes "GET") (codes "okta_auth_providers") (auth_provider_query opts)
        (dec_struct okta_auth_provider_fields) zero_okta_auth_provider
