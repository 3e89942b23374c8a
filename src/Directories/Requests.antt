-- ===== src/Directories/Requests.antt =====
-- The requests of the operations of directories.go.
use firezone_go.Prelude.{ℕ, Option, none, some, Str, codes, [], ◌∷◌, refl, IsBytes, arith}
use firezone_go.Calls.Requests.{Ready, IsPath, Asks, do_list-Asks, checked_into}
use firezone_go.Client.{Client}
use firezone_go.Go.Json.Decode.{dec_struct}
use firezone_go.Http.{World, Log}
use firezone_go.Path.{check_id, build_path}
use firezone_go.Directories.{DirectoryListOptions, directory_query}
use firezone_go.Directories.Google
use firezone_go.Directories.Types.{google_directory_fields, zero_google_directory}
use firezone_go.Directories.Entra
use firezone_go.Directories.Types.{entra_directory_fields, zero_entra_directory}
use firezone_go.Directories.Okta
use firezone_go.Directories.Types.{okta_directory_fields, zero_okta_directory}

fixed-IsBytes :
    IsBytes (codes "google_directories")
    × IsBytes (codes "entra_directories")
    × IsBytes (codes "okta_directories")
fixed-IsBytes = ground arith

one-IsPath :
    (name id : Str)
    → IsBytes name
    → IsBytes id
    → IsPath (build_path (name ∷ id ∷ [])) (name ∷ id ∷ [])
one-IsPath name id h k = record { built = refl; some_segment = λ e. cc; bytes = (h, (k, tt)) }

google-IsPath : IsPath (codes "google_directories") (codes "google_directories" ∷ [])
unfolding build_path firezone_go.Go.Escape.escape firezone_go.Go.Strings.join
google-IsPath = record { built = refl; some_segment = λ e. cc; bytes = (fixed-IsBytes.0, tt) }

entra-IsPath : IsPath (codes "entra_directories") (codes "entra_directories" ∷ [])
unfolding build_path firezone_go.Go.Escape.escape firezone_go.Go.Strings.join
entra-IsPath = record { built = refl; some_segment = λ e. cc; bytes = (fixed-IsBytes.1, tt) }

okta-IsPath : IsPath (codes "okta_directories") (codes "okta_directories" ∷ [])
unfolding build_path firezone_go.Go.Escape.escape firezone_go.Go.Strings.join
okta-IsPath = record { built = refl; some_segment = λ e. cc; bytes = (fixed-IsBytes.2, tt) }

-- With a client that is ready with a budget of `n` retries and an ID of bytes, every operation on
-- the directories, of each kind, asks for nothing but its request, at most `n + 1` times, and once
-- if retries are disabled, whatever is answered: getting one asks for GET of the name of the kind
-- and the ID, and listing for GET of the name of the kind with the query of the options, both
-- without a body.
pub directory_requests_lem :
    (w : World) (c : Client) (n : ℕ) (id : Str) (opts : Option DirectoryListOptions) (log : Log)
    → Ready w c n
    → IsBytes id
    → (Asks c n
        (codes "GET")
        (codes "google_directories" ∷ id ∷ [])
        none
        none
        log
        (Google.get w (record { client = c }) id log).1)
      × (Asks c n
          (codes "GET")
          (codes "google_directories" ∷ [])
          (some (directory_query opts))
          none
          log
          (Google.list w (record { client = c }) opts log).1)
      × (Asks c n
          (codes "GET")
          (codes "entra_directories" ∷ id ∷ [])
          none
          none
          log
          (Entra.get w (record { client = c }) id log).1)
      × (Asks c n
          (codes "GET")
          (codes "entra_directories" ∷ [])
          (some (directory_query opts))
          none
          log
          (Entra.list w (record { client = c }) opts log).1)
      × (Asks c n
          (codes "GET")
          (codes "okta_directories" ∷ id ∷ [])
          none
          none
          log
          (Okta.get w (record { client = c }) id log).1)
      × (Asks c n
          (codes "GET")
          (codes "okta_directories" ∷ [])
          (some (directory_query opts))
          none
          log
          (Okta.list w (record { client = c }) opts log).1)
unfolding Google.get Google.list Entra.get Entra.list Okta.get Okta.list
directory_requests_lem w c n id opts log ready bytes = (
  checked_into w c n ready (codes "GET") (build_path (codes "google_directories" ∷ id ∷ []))
      (codes "google_directories" ∷ id ∷ [])
      (one-IsPath (codes "google_directories") id fixed-IsBytes.0 bytes) none
      (check_id (codes "directory ID") id) none (dec_struct google_directory_fields)
      zero_google_directory log,
  do_list-Asks w c n ready (codes "google_directories") (codes "google_directories" ∷ [])
      google-IsPath (directory_query opts) (dec_struct google_directory_fields)
      zero_google_directory log,
  checked_into w c n ready (codes "GET") (build_path (codes "entra_directories" ∷ id ∷ []))
      (codes "entra_directories" ∷ id ∷ [])
      (one-IsPath (codes "entra_directories") id fixed-IsBytes.1 bytes) none
      (check_id (codes "directory ID") id) none (dec_struct entra_directory_fields)
      zero_entra_directory log,
  do_list-Asks w c n ready (codes "entra_directories") (codes "entra_directories" ∷ []) entra-IsPath
      (directory_query opts) (dec_struct entra_directory_fields) zero_entra_directory log,
  checked_into w c n ready (codes "GET") (build_path (codes "okta_directories" ∷ id ∷ []))
      (codes "okta_directories" ∷ id ∷ [])
      (one-IsPath (codes "okta_directories") id fixed-IsBytes.2 bytes) none
      (check_id (codes "directory ID") id) none (dec_struct okta_directory_fields)
      zero_okta_directory log,
  do_list-Asks w c n ready (codes "okta_directories") (codes "okta_directories" ∷ []) okta-IsPath
      (directory_query opts) (dec_struct okta_directory_fields) zero_okta_directory log,
)
