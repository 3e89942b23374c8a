-- ===== src/AuthProviders/Oidc.antt =====
-- auth_providers.go: the OIDC auth providers.
use firezone_go.Prelude.{Bool, false, [], ◌∷◌, Option, none, some, Str, codes}
use firezone_go.AuthProviders.{
  AuthProvider, zero_auth_provider, auth_provider_fields, AuthProviderListOptions,
  auth_provider_query,
}
use firezone_go.Calls.{check, ◌>>◌, do_into, do_list}
use firezone_go.Client.{Client}
use firezone_go.Go.Json.{Fields}
use firezone_go.Go.Json.Decode.{dec_struct, dec_string, dec_bool, get_field, ◌>>=◌}
use firezone_go.Http.{World, M}
use firezone_go.Path.{check_id, build_path}
use firezone_go.Query.{Page}

pub record OidcAuthProvider : Type 0 where
  pub auth_provider : AuthProvider
  pub is_default : Bool
  pub client_id : Str
  pub discovery_document_uri : Str
  pub email_verification_method : Str

abbrev pub zero_oidc_auth_provider : OidcAuthProvider
zero_oidc_auth_provider = record {
  auth_provider = zero_auth_provider;
  is_default = false;
  client_id = [];
  discovery_document_uri = [];
  email_verification_method = [];
}

-- The fields of the embedded `AuthProvider` are read from the same object.
unfoldable pub oidc_auth_provider_fields : Fields → OidcAuthProvider → Option OidcAuthProvider
unfolding auth_provider_fields get_field dec_string dec_bool
oidc_auth_provider_fields fs r = do
  auth_provider ← auth_provider_fields fs r.auth_provider
  is_default ← get_field (codes "is_default") dec_bool fs r.is_default
  client_id ← get_field (codes "client_id") dec_string fs r.client_id
  discovery_document_uri ←
      get_field (codes "discovery_document_uri") dec_string fs r.discovery_document_uri
  email_verification_method ←
      get_field (codes "email_verification_method") dec_string fs r.email_verification_method
  some (record {
    auth_provider = auth_provider;
    is_default = is_default;
    client_id = client_id;
    discovery_document_uri = discovery_document_uri;
    email_verification_method = email_verification_method;
  })

pub record OidcAuthProvidersService : Type 0 where
  pub client : Client

module _ (w : World) (s : OidcAuthProvidersService) where
  unfoldable pub get : Str → M OidcAuthProvider
  unfolding check_id build_path do_into oidc_auth_provider_fields
  get id = do
    check (check_id (codes "auth provider ID") id)
    do_into w s.client (codes "GET") (build_path (codes "oidc_auth_providers" ∷ id ∷ [])) none none
        (dec_struct oidc_auth_provider_fields) zero_oidc_auth_provider

  unfoldable pub list : Option AuthProviderListOptions → M (Page OidcAuthProvider)
  unfolding do_list oidc_auth_provider_fields auth_provider_query
  list opts = do
    do_list w s.client (codes "GET") (codes "oidc_auth_providers") (auth_provider_query opts)
        (dec_struct oidc_auth_provider_fields) zero_oidc_auth_provider
