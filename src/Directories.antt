-- ===== src/Directories.antt =====
-- directories.go: what the directories of every kind share. Each kind has a module of its own.

pub mod Types
pub mod Entra
pub mod Google
pub mod Okta
pub mod Requests
use firezone_go.Prelude.{
  Bool, true, false, not, List, [], ◌∷◌, ◌++◌, Option, none, some, Str, codes, str_eq,
  if◌then◌else◌, map, ℕ,
}
use firezone_go.Prelude.Int.{ℤ, pos}
use firezone_go.Calls.{or_zero}
use firezone_go.Go.Json.{Fields}
use firezone_go.Go.Json.Decode.{dec_string, dec_bool, dec_int, dec_pointer, get_field, ◌>>=◌}
use firezone_go.Go.Time.{Time, dec_time}
use firezone_go.Go.Values.{Values}
use firezone_go.Query.{ListOptions, filter_query}

pub record DirectoryListOptions : Type 0 where
  pub list_options : ListOptions
  pub name : Str

abbrev pub zero_directory_list_options : DirectoryListOptions
zero_directory_list_options = record {
  list_options = record { limit = pos 0; page_cursor = [] };
  name = [];
}

unfoldable pub directory_query : Option DirectoryListOptions → Values
unfolding filter_query
directory_query given =
    let opts = or_zero zero_directory_list_options given in
    filter_query opts.list_options ((codes "name", opts.name) ∷ [])
