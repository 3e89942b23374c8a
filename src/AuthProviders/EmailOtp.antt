-- ===== src/AuthProviders/EmailOtp.antt =====
-- auth_providers.go: the EmailOTP auth providers.
use firezone_go.Prelude.{[], ◌∷◌, Option, none, some, Str, codes}
use firezone_go.AuthProviders.{
  AuthProvider, zero_auth_provider, auth_provider_fields, AuthProviderListOptions,
  auth_provider_query,
}
use firezone_go.Calls.{check, ◌>>◌, do_into, do_list}
use firezone_go.Client.{Client}
use firezone_go.Go.Json.{Fields}
use firezone_go.Go.Json.Decode.{dec_struct, ◌>>=◌}
use firezone_go.Http.{World, M}
use firezone_go.Path.{check_id, build_path}
use firezone_go.Query.{Page}

pub record EmailOtpAuthProvider : Type 0 where
  pub auth_provider : AuthProvider

abbrev pub zero_email_otp_auth_provider : EmailOtpAuthProvider
zero_email_otp_auth_provider = record { auth_provider = zero_auth_provider }

-- The fields of the embedded `AuthProvider` are read from the same object.
unfoldable pub email_otp_auth_provider_fields :
    Fields → EmailOtpAuthProvider → Option EmailOtpAuthProvider
unfolding auth_provider_fields
email_otp_auth_provider_fields fs r = do
  auth_provider ← auth_provider_fields fs r.auth_provider
  some (record { auth_provider = auth_provider })

pub record EmailOtpAuthProvidersService : Type 0 where
  pub client : Client

module _ (w : World) (s : EmailOtpAuthProvidersService) where
  unfoldable pub get : Str → M EmailOtpAuthProvider
  unfolding check_id build_path do_into email_otp_auth_provider_fields
  get id = do
    check (check_id (codes "auth provider ID") id)
    do_into w s.client (codes "GET") (build_path (codes "email_otp_auth_providers" ∷ id ∷ [])) none
        none (dec_struct email_otp_auth_provider_fields) zero_email_otp_auth_provider

  unfoldable pub list : Option AuthProviderListOptions → M (Page EmailOtpAuthProvider)
  unfolding do_list email_otp_auth_provider_fields auth_provider_query
  list opts = do
    do_list w s.client (codes "GET") (codes "email_otp_auth_providers") (auth_provider_query opts)
        (dec_struct email_otp_auth_provider_fields) zero_email_otp_auth_provider
