-- ===== src/Tests/Requests/AuthProviders.antt =====
-- The requests of the AuthProviders service, at one client.
use firezone_go.Prelude.{IsBytes, [], arith, codes, none, some, ◌∷◌}
use firezone_go.Calls.Requests.{Asks}
use firezone_go.AuthProviders.{auth_provider_query}
use firezone_go.AuthProviders.EmailOtp
use firezone_go.AuthProviders.Oidc
use firezone_go.AuthProviders.Google
use firezone_go.AuthProviders.Entra
use firezone_go.AuthProviders.Okta
use firezone_go.AuthProviders.Requests.{auth_provider_requests_lem}
use firezone_go.Tests.Data.{client, world}
use firezone_go.Tests.Requests.{ready}

id-IsBytes : IsBytes (codes "p1")
id-IsBytes = ground arith

auth_provider_requests_lem_example :
    (Asks client 2
      (codes "GET")
      (codes "email_otp_auth_providers" ∷ (codes "p1") ∷ [])
      none
      none
      []
      (EmailOtp.get world (record { client = client }) (codes "p1") []).1)
    × (Asks client 2
        (codes "GET")
        (codes "email_otp_auth_providers" ∷ [])
        (some (auth_provider_query none))
        none
        []
        (EmailOtp.list world (record { client = client }) none []).1)
    × (Asks client 2
        (codes "GET")
        (codes "oidc_auth_providers" ∷ (codes "p1") ∷ [])
        none
        none
        []
        (Oidc.get world (record { client = client }) (codes "p1") []).1)
    × (Asks client 2
        (codes "GET")
        (codes "oidc_auth_providers" ∷ [])
        (some (auth_provider_query none))
        none
        []
        (Oidc.list world (record { client = client }) none []).1)
    × (Asks client 2
        (codes "GET")
        (codes "google_auth_providers" ∷ (codes "p1") ∷ [])
        none
        none
        []
        (Google.get world (record { client = client }) (codes "p1") []).1)
    × (Asks client 2
        (codes "GET")
        (codes "google_auth_providers" ∷ [])
        (some (auth_provider_query none))
        none
        []
        (Google.list world (record { client = client }) none []).1)
    × (Asks client 2
        (codes "GET")
        (codes "entra_auth_providers" ∷ (codes "p1") ∷ [])
        none
        none
        []
        (Entra.get world (record { client = client }) (codes "p1") []).1)
    × (Asks client 2
        (codes "GET")
        (codes "entra_auth_providers" ∷ [])
        (some (auth_provider_query none))
        none
        []
        (Entra.list world (record { client = client }) none []).1)
    × (Asks client 2
        (codes "GET")
        (codes "okta_auth_providers" ∷ (codes "p1") ∷ [])
        none
        none
        []
        (Okta.get world (record { client = client }) (codes "p1") []).1)
    × (Asks client 2
        (codes "GET")
        (codes "okta_auth_providers" ∷ [])
        (some (auth_provider_query none))
        none
        []
        (Okta.list world (record { client = client }) none []).1)
auth_provider_requests_lem_example =
    auth_provider_requests_lem world client 2 (codes "p1") none [] ready id-IsBytes
