-- ===== src/Directories/Entra.antt =====
-- directories.go: the Entra directories.
use firezone_go.Prelude.{[], ◌∷◌, Option, none, Str, codes}
use firezone_go.Directories.{DirectoryListOptions, directory_query}
use firezone_go.Directories.Types.{EntraDirectory, zero_entra_directory, entra_directory_fields}
use firezone_go.Calls.{check, ◌>>◌, do_into, do_list}
use firezone_go.Client.{Client}
use firezone_go.Go.Json.Decode.{dec_struct}
use firezone_go.Http.{World, M}
use firezone_go.Path.{check_id, build_path}
use firezone_go.Query.{Page}

pub record EntraDirectoriesService : Type 0 where
  pub client : Client

module _ (w : World) (s : EntraDirectoriesService) where
  unfoldable pub get : Str → M EntraDirectory
  unfolding check_id build_path do_into entra_directory_fields
  get id = do
    check (check_id (codes "directory ID") id)
    do_into w s.client (codes "GET") (build_path (codes "entra_directories" ∷ id ∷ [])) none none
        (dec_struct entra_directory_fields) zero_entra_directory

  unfoldable pub list : Option DirectoryListOptions → M (Page EntraDirectory)
  unfolding do_list entra_directory_fields directory_query
  list opts = do
    do_list w s.client (codes "GET") (codes "entra_directories") (directory_query opts)
        (dec_struct entra_directory_fields) zero_entra_directory
