-- ===== src/Directories/Google.antt =====
-- directories.go: the Google directories.
use firezone_go.Prelude.{[], ◌∷◌, Option, none, Str, codes}
use firezone_go.Directories.{DirectoryListOptions, directory_query}
use firezone_go.Directories.Types.{GoogleDirectory, zero_google_directory, google_directory_fields}
use firezone_go.Calls.{check, ◌>>◌, do_into, do_list}
use firezone_go.Client.{Client}
use firezone_go.Go.Json.Decode.{dec_struct}
use firezone_go.Http.{World, M}
use firezone_go.Path.{check_id, build_path}
use firezone_go.Query.{Page}

pub record GoogleDirectoriesService : Type 0 where
  pub client : Client

module _ (w : World) (s : GoogleDirectoriesService) where
  unfoldable pub get : Str → M GoogleDirectory
  unfolding check_id build_path do_into google_directory_fields
  get id = do
    check (check_id (codes "directory ID") id)
    do_into w s.client (codes "GET") (build_path (codes "google_directories" ∷ id ∷ [])) none none
        (dec_struct google_directory_fields) zero_google_directory

  unfoldable pub list : Option DirectoryListOptions → M (Page GoogleDirectory)
  unfolding do_list google_directory_fields directory_query
  list opts = do
    do_list w s.client (codes "GET") (codes "google_directories") (directory_query opts)
        (dec_struct google_directory_fields) zero_google_directory
