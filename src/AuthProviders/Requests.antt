-- ===== src/AuthProviders/Requests.antt =====
-- The requests of the operations of auth_providers.go.
use firezone_go.Prelude.{ℕ, Option, none, some, Str, codes, [], ◌∷◌, refl, IsBytes, arith}
use firezone_go.Calls.Requests.{Ready, IsPath, Asks, do_list-Asks, checked_into}
use firezone_go.Client.{Client}
use firezone_go.Go.Json.Decode.{dec_struct}
use firezone_go.Http.{World, Log}
use firezone_go.Path.{check_id, build_path}
use firezone_go.AuthProviders.{AuthProviderListOptions, auth_provider_query}
use firezone_go.AuthProviders.EmailOtp
use firezone_go.AuthProviders.EmailOtp.{
  email_otp_auth_provider_fields, zero_email_otp_auth_provider,
}
use firezone_go.AuthProviders.Oidc
use firezone_go.AuthProviders.Oidc.{oidc_auth_provider_fields, zero_oidc_auth_provider}
use firezone_go.AuthProviders.Google
use firezone_go.AuthProviders.Google.{google_auth_provider_fields, zero_google_auth_provider}
use firezone_go.AuthProviders.Entra
use firezone_go.AuthProviders.Entra.{entra_auth_provider_fields, zero_entra_auth_provider}
use firezone_go.AuthProviders.Okta
use firezone_go.AuthProviders.Okta.{okta_auth_provider_fields, zero_okta_auth_provider}

fixed-IsBytes :
    IsBytes (codes "email_otp_auth_providers")
    × IsBytes (codes "oidc_auth_providers")
    × IsBytes (codes "google_auth_providers")
    × IsBytes (codes "entra_auth_providers")
    × IsBytes (codes "okta_auth_providers")
fixed-IsBytes = ground arith

one-IsPath :
    (name id : Str)
    → IsBytes name
    → IsBytes id
    → IsPath (build_path (name ∷ id ∷ [])) (name ∷ id ∷ [])
one-IsPath name id h k = record { built = refl; some_segment = λ e. cc; bytes = (h, (k, tt)) }

email_otp-IsPath : IsPath (codes "email_otp_auth_providers") (codes "email_otp_auth_providers" ∷ [])
unfolding build_path firezone_go.Go.Escape.escape firezone_go.Go.Strings.join
email_otp-IsPath = record { built = refl; some_segment = λ e. cc; bytes = (fixed-IsBytes.0, tt) }

oidc-IsPath : IsPath (codes "oidc_auth_providers") (codes "oidc_auth_providers" ∷ [])
unfolding build_path firezone_go.Go.Escape.escape firezone_go.Go.Strings.join
oidc-IsPath = record { built = refl; some_segment = λ e. cc; bytes = (fixed-IsBytes.1, tt) }

google-IsPath : IsPath (codes "google_auth_providers") (codes "google_auth_providers" ∷ [])
unfolding build_path firezone_go.Go.Escape.escape firezone_go.Go.Strings.join
google-IsPath = record { built = refl; some_segment = λ e. cc; bytes = (fixed-IsBytes.2, tt) }

entra-IsPath : IsPath (codes "entra_auth_providers") (codes "entra_auth_providers" ∷ [])
unfolding build_path firezone_go.Go.Escape.escape firezone_go.Go.Strings.join
entra-IsPath = record { built = refl; some_segment = λ e. cc; bytes = (fixed-IsBytes.3, tt) }

okta-IsPath : IsPath (codes "okta_auth_providers") (codes "okta_auth_providers" ∷ [])
unfolding build_path firezone_go.Go.Escape.escape firezone_go.Go.Strings.join
okta-IsPath = record { built = refl; some_segment = λ e. cc; bytes = (fixed-IsBytes.4, tt) }

-- With a client that is ready with a budget of `n` retries and an ID of bytes, every operation on
-- the auth providers, of each kind, asks for nothing but its request, at most `n + 1` times, and
-- once if retries are disabled, whatever is answered: getting one asks for GET of the name of the
-- kind and the ID, and listing for GET of the name of the kind with the query of the options, both
-- without a body.
pub auth_provider_requests_lem :
    (w : World) (c : Client) (n : ℕ) (id : Str) (opts : Option AuthProviderListOptions) (log : Log)
    → Ready w c n
    → IsBytes id
    → (Asks c n
        (codes "GET")
        (codes "email_otp_auth_providers" ∷ id ∷ [])
        none
        none
        log
        (EmailOtp.get w (record { client = c }) id log).1)
      × (Asks c n
          (codes "GET")
          (codes "email_otp_auth_providers" ∷ [])
          (some (auth_provider_query opts))
          none
          log
          (EmailOtp.list w (record { client = c }) opts log).1)
      × (Asks c n
          (codes "GET")
          (codes "oidc_auth_providers" ∷ id ∷ [])
          none
          none
          log
          (Oidc.get w (record { client = c }) id log).1)
      × (Asks c n
          (codes "GET")
          (codes "oidc_auth_providers" ∷ [])
          (some (auth_provider_query opts))
          none
          log
          (Oidc.list w (record { client = c }) opts log).1)
      × (Asks c n
          (codes "GET")
          (codes "google_auth_providers" ∷ id ∷ [])
          none
          none
          log
          (Google.get w (record { client = c }) id log).1)
      × (Asks c n
          (codes "GET")
          (codes "google_auth_providers" ∷ [])
          (some (auth_provider_query opts))
          none
          log
          (Google.list w (record { client = c }) opts log).1)
      × (Asks c n
          (codes "GET")
          (codes "entra_auth_providers" ∷ id ∷ [])
          none
          none
          log
          (Entra.get w (record { client = c }) id log).1)
      × (Asks c n
          (codes "GET")
          (codes "entra_auth_providers" ∷ [])
          (some (auth_provider_query opts))
          none
          log
          (Entra.list w (record { client = c }) opts log).1)
      × (Asks c n
          (codes "GET")
          (codes "okta_auth_providers" ∷ id ∷ [])
          none
          none
          log
          (Okta.get w (record { client = c }) id log).1)
      × (Asks c n
          (codes "GET")
          (codes "okta_auth_providers" ∷ [])
          (some (auth_provider_query opts))
          none
          log
          (Okta.list w (record { client = c }) opts log).1)
unfolding EmailOtp.get EmailOtp.list Oidc.get Oidc.list Google.get Google.list Entra.get Entra.list
    Okta.get Okta.list
auth_provider_requests_lem w c n id opts log ready bytes = (
  checked_into w c n ready (codes "GET") (build_path (codes "email_otp_auth_providers" ∷ id ∷ []))
      (codes "email_otp_auth_providers" ∷ id ∷ [])
      (one-IsPath (codes "email_otp_auth_providers") id fixed-IsBytes.0 bytes) none
      (check_id (codes "auth provider ID") id) none (dec_struct email_otp_auth_provider_fields)
      zero_email_otp_auth_provider log,
  do_list-Asks w c n ready (codes "email_otp_auth_providers")
      (codes "email_otp_auth_providers" ∷ []) email_otp-IsPath (auth_provider_query opts)
      (dec_struct email_otp_auth_provider_fields) zero_email_otp_auth_provider log,
  checked_into w c n ready (codes "GET") (build_path (codes "oidc_auth_providers" ∷ id ∷ []))
      (codes "oidc_auth_providers" ∷ id ∷ [])
      (one-IsPath (codes "oidc_auth_providers") id fixed-IsBytes.1 bytes) none
      (check_id (codes "auth provider ID") id) none (dec_struct oidc_auth_provider_fields)
      zero_oidc_auth_provider log,
  do_list-Asks w c n ready (codes "oidc_auth_providers") (codes "oidc_auth_providers" ∷ [])
      oidc-IsPath (auth_provider_query opts) (dec_struct oidc_auth_provider_fields)
      zero_oidc_auth_provider log,
  checked_into w c n ready (codes "GET") (build_path (codes "google_auth_providers" ∷ id ∷ []))
      (codes "google_auth_providers" ∷ id ∷ [])
      (one-IsPath (codes "google_auth_providers") id fixed-IsBytes.2 bytes) none
      (check_id (codes "auth provider ID") id) none (dec_struct google_auth_provider_fields)
      zero_google_auth_provider log,
  do_list-Asks w c n ready (codes "google_auth_providers") (codes "google_auth_providers" ∷ [])
      google-IsPath (auth_provider_query opts) (dec_struct google_auth_provider_fields)
      zero_google_auth_provider log,
  checked_into w c n ready (codes "GET") (build_path (codes "entra_auth_providers" ∷ id ∷ []))
      (codes "entra_auth_providers" ∷ id ∷ [])
      (one-IsPath (codes "entra_auth_providers") id fixed-IsBytes.3 bytes) none
      (check_id (codes "auth provider ID") id) none (dec_struct entra_auth_provider_fields)
      zero_entra_auth_provider log,
  do_list-Asks w c n ready (codes "entra_auth_providers") (codes "entra_auth_providers" ∷ [])
      entra-IsPath (auth_provider_query opts) (dec_struct entra_auth_provider_fields)
      zero_entra_auth_provider log,
  checked_into w c n ready (codes "GET") (build_path (codes "okta_auth_providers" ∷ id ∷ []))
      (codes "okta_auth_providers" ∷ id ∷ [])
      (one-IsPath (codes "okta_auth_providers") id fixed-IsBytes.4 bytes) none
      (check_id (codes "auth provider ID") id) none (dec_struct okta_auth_provider_fields)
      zero_okta_auth_provider log,
  do_list-Asks w c n ready (codes "okta_auth_providers") (codes "okta_auth_providers" ∷ [])
      okta-IsPath (auth_provider_query opts) (dec_struct okta_auth_provider_fields)
      zero_okta_auth_provider log,
)
