-- ===== src/Tests/Requests/Directories.antt =====
-- The requests of the Directories service, at one client.
use firezone_go.Prelude.{IsBytes, [], arith, codes, none, some, ◌∷◌}
use firezone_go.Calls.Requests.{Asks}
use firezone_go.Directories.{directory_query}
use firezone_go.Directories.Google
use firezone_go.Directories.Entra
use firezone_go.Directories.Okta
use firezone_go.Directories.Requests.{directory_requests_lem}
use firezone_go.Tests.Data.{client, world}
use firezone_go.Tests.Requests.{ready}

id-IsBytes : IsBytes (codes "p1")
id-IsBytes = ground arith

directory_requests_lem_example :
    (Asks client 2
      (codes "GET")
      (codes "google_directories" ∷ (codes "p1") ∷ [])
      none
      none
      []
      (Google.get world (record { client = client }) (codes "p1") []).1)
    × (Asks client 2
        (codes "GET")
        (codes "google_directories" ∷ [])
        (some (directory_query none))
        none
        []
        (Google.list world (record { client = client }) none []).1)
    × (Asks client 2
        (codes "GET")
        (codes "entra_directories" ∷ (codes "p1") ∷ [])
        none
        none
        []
        (Entra.get world (record { client = client }) (codes "p1") []).1)
    × (Asks client 2
        (codes "GET")
        (codes "entra_directories" ∷ [])
        (some (directory_query none))
        none
        []
        (Entra.list world (record { client = client }) none []).1)
    × (Asks client 2
        (codes "GET")
        (codes "okta_directories" ∷ (codes "p1") ∷ [])
        none
        none
        []
        (Okta.get world (record { client = client }) (codes "p1") []).1)
    × (Asks client 2
        (codes "GET")
        (codes "okta_directories" ∷ [])
        (some (directory_query none))
        none
        []
        (Okta.list world (record { client = client }) none []).1)
directory_requests_lem_example =
    directory_requests_lem world client 2 (codes "p1") none [] ready id-IsBytes
