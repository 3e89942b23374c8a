-- ===== src/Sites/Types.antt =====
-- sites.go: the values it exchanges with the API, decoded and encoded field by field.
use firezone_go.Prelude.{[], Option, some, Str, codes}
use firezone_go.Prelude.Int.{pos}
use firezone_go.Go.Json.{Json, str, Fields}
use firezone_go.Go.Json.Decode.{dec_string, get_field, ◌>>=◌}
use firezone_go.Go.Json.Encode.{member, omit_string, object}
use firezone_go.Query.{ListOptions}

pub record Site : Type 0 where
  pub id : Str
  pub name : Str

abbrev pub zero_site : Site
zero_site = record { id = []; name = [] }

unfoldable pub site_fields : Fields → Site → Option Site
unfolding get_field dec_string
site_fields fs r = do
  id ← get_field (codes "id") dec_string fs r.id
  name ← get_field (codes "name") dec_string fs r.name
  some (record { id = id; name = name })

pub record CreateSiteRequest : Type 0 where
  pub name : Str

unfoldable pub create_site_request_json : CreateSiteRequest → Json
create_site_request_json r = object (member (codes "name") (str r.name))

pub record UpdateSiteRequest : Type 0 where
  pub name : Str

unfoldable pub update_site_request_json : UpdateSiteRequest → Json
update_site_request_json r = object (omit_string (codes "name") r.name)

pub record SiteListOptions : Type 0 where
  pub list_options : ListOptions
  pub name : Str

abbrev pub zero_site_list_options : SiteListOptions
zero_site_list_options = record {
  list_options = record { limit = pos 0; page_cursor = [] };
  name = [];
}
