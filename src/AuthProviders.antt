-- ===== src/AuthProviders.antt =====
-- auth_providers.go: what the auth providers of every kind share. Each kind has a module of its own.

pub mod EmailOtp
pub mod Oidc
pub mod Google
pub mod Entra
pub mod Okta
pub mod Requests
use firezone_go.Prelude.{
  Bool, true, false, not, List, [], ◌∷◌, ◌++◌, Option, none, some, Str, codes, str_eq,
  if◌then◌else◌, map, ℕ,
}
use firezone_go.Prelude.Int.{ℤ, pos}
use firezone_go.Calls.{or_zero}
use firezone_go.Go.Json.{Fields}
use firezone_go.Go.Json.Decode.{dec_string, dec_bool, dec_int, dec_pointer, get_field, ◌>>=◌}
use firezone_go.Go.Time.{Time, dec_time}
use firezone_go.Go.Values.{Values}
use firezone_go.Query.{ListOptions, filter_query}

pub record AuthProvider : Type 0 where
  pub id : Str
  pub account_id : Str
  pub name : Str
  pub issuer : Str
  pub context : Str
  pub client_session_lifetime_secs : Option ℤ
  pub portal_session_lifetime_secs : Option ℤ
  pub is_disabled : Bool
  pub inserted_at : Time
  pub updated_at : Time

abbrev pub zero_auth_provider : AuthProvider
zero_auth_provider = record {
  id = [];
  account_id = [];
  name = [];
  issuer = [];
  context = [];
  client_session_lifetime_secs = none;
  portal_session_lifetime_secs = none;
  is_disabled = false;
  inserted_at = [];
  updated_at = [];
}

unfoldable pub auth_provider_fields : Fields → AuthProvider → Option AuthProvider
unfolding get_field dec_bool dec_pointer dec_string dec_time
auth_provider_fields fs r = do
  id ← get_field (codes "id") dec_string fs r.id
  account_id ← get_field (codes "account_id") dec_string fs r.account_id
  name ← get_field (codes "name") dec_string fs r.name
  issuer ← get_field (codes "issuer") dec_string fs r.issuer
  context ← get_field (codes "context") dec_string fs r.context
  client_session_lifetime_secs ←
      get_field (codes "client_session_lifetime_secs") (dec_pointer dec_int (pos 0)) fs
        r.client_session_lifetime_secs
  portal_session_lifetime_secs ←
      get_field (codes "portal_session_lifetime_secs") (dec_pointer dec_int (pos 0)) fs
        r.portal_session_lifetime_secs
  is_disabled ← get_field (codes "is_disabled") dec_bool fs r.is_disabled
  inserted_at ← get_field (codes "inserted_at") dec_time fs r.inserted_at
  updated_at ← get_field (codes "updated_at") dec_time fs r.updated_at
  some (record {
    id = id;
    account_id = account_id;
    name = name;
    issuer = issuer;
    context = context;
    client_session_lifetime_secs = client_session_lifetime_secs;
    portal_session_lifetime_secs = portal_session_lifetime_secs;
    is_disabled = is_disabled;
    inserted_at = inserted_at;
    updated_at = updated_at;
  })

pub record AuthProviderListOptions : Type 0 where
  pub list_options : ListOptions
  pub name : Str

abbrev pub zero_auth_provider_list_options : AuthProviderListOptions
zero_auth_provider_list_options = record {
  list_options = record { limit = pos 0; page_cursor = [] };
  name = [];
}

unfoldable pub auth_provider_query : Option AuthProviderListOptions → Values
unfolding filter_query
auth_provider_query given =
    let opts = or_zero zero_auth_provider_list_options given in
    filter_query opts.list_options ((codes "name", opts.name) ∷ [])
