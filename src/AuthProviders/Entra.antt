-- ===== src/AuthProviders/Entra.antt =====
-- auth_providers.go: the Entra auth providers.
use firezone_go.Prelude.{Bool, false, [], ◌∷◌, Option, none, some, Str, codes}
use firezone_go.AuthProviders.{
  AuthProvider, zero_auth_provider, auth_provider_fields, AuthProviderListOptions,
  auth_provider_query,
}
use firezone_go.Calls.{check, ◌>>◌, do_into, do_list}
use firezone_go.Client.{Client}
use firezone_go.Go.Json.{Fields}
use firezone_go.Go.Json.Decode.{dec_struct, dec_string, dec_bool, get_field, ◌>>=◌}
use firezone_go.Http.{World, M}
use firezone_go.Path.{check_id, build_path}
use firezone_go.Query.{Page}

pub record EntraAuthProvider : Type 0 where
  pub auth_provider : AuthProvider
  pub is_default : Bool
  pub email_claim : Str

abbrev pub zero_entra_auth_provider : EntraAuthProvider
zero_entra_auth_provider = record {
  auth_provider = zero_auth_provider;
  is_default = false;
  email_claim = [];
}

-- The fields of the embedded `AuthProvider` are read from the same object.
unfoldable pub entra_auth_provider_fields : Fields → EntraAuthProvider → Option EntraAuthProvider
unfolding auth_provider_fields get_field dec_string dec_bool
entra_auth_provider_fields fs r = do
  auth_provider ← auth_provider_fields fs r.auth_provider
  is_default ← get_field (codes "is_default") dec_bool fs r.is_default
  email_claim ← get_field (codes "email_claim") dec_string fs r.email_claim
  some
      (record { auth_provider = auth_provider; is_default = is_default; email_claim = email_claim })

pub record EntraAuthProvidersService : Type 0 where
  pub client : Client

module _ (w : World) (s : EntraAuthProvidersService) where
  unfoldable pub get : Str → M EntraAuthProvider
  unfolding check_id build_path do_into entra_auth_provider_fields
  get id = do
    check (check_id (codes "auth provider ID") id)
    do_into w s.client (codes "GET") (build_path (codes "entra_auth_providers" ∷ id ∷ [])) none none
        (dec_struct entra_auth_provider_fields) zero_entra_auth_provider

  unfoldable pub list : Option AuthProviderListOptions → M (Page EntraAuthProvider)
  unfolding do_list entra_auth_provider_fields auth_provider_query
  list opts = do
    do_list w s.client (codes "GET") (codes "entra_auth_providers") (auth_provider_query opts)
        (dec_struct entra_auth_provider_fields) zero_entra_auth_provider
