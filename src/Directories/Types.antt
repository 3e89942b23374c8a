-- ===== src/Directories/Types.antt =====
-- directories.go: the directories, decoded field by field.
use firezone_go.Prelude.{Bool, false, [], Option, none, some, Str, codes}
use firezone_go.Go.Json.{Fields}
use firezone_go.Go.Json.Decode.{dec_string, dec_bool, dec_pointer, get_field, ◌>>=◌}
use firezone_go.Go.Time.{Time, dec_time}

pub record EntraDirectory : Type 0 where
  pub id : Str
  pub account_id : Str
  pub name : Str
  pub tenant_id : Str
  pub is_disabled : Bool
  pub disabled_reason : Str
  pub synced_at : Option Time
  pub error_message : Str
  pub errored_at : Option Time
  pub email_field : Str
  pub sync_all_groups : Bool
  pub inserted_at : Time
  pub updated_at : Time

abbrev pub zero_entra_directory : EntraDirectory
zero_entra_directory = record {
  id = [];
  account_id = [];
  name = [];
  tenant_id = [];
  is_disabled = false;
  disabled_reason = [];
  synced_at = none;
  error_message = [];
  errored_at = none;
  email_field = [];
  sync_all_groups = false;
  inserted_at = [];
  updated_at = [];
}

unfoldable pub entra_directory_fields : Fields → EntraDirectory → Option EntraDirectory
unfolding get_field dec_bool dec_pointer dec_string dec_time
entra_directory_fields fs r = do
  id ← get_field (codes "id") dec_string fs r.id
  account_id ← get_field (codes "account_id") dec_string fs r.account_id
  name ← get_field (codes "name") dec_string fs r.name
  tenant_id ← get_field (codes "tenant_id") dec_string fs r.tenant_id
  is_disabled ← get_field (codes "is_disabled") dec_bool fs r.is_disabled
  disabled_reason ← get_field (codes "disabled_reason") dec_string fs r.disabled_reason
  synced_at ← get_field (codes "synced_at") (dec_pointer dec_time []) fs r.synced_at
  error_message ← get_field (codes "error_message") dec_string fs r.error_message
  errored_at ← get_field (codes "errored_at") (dec_pointer dec_time []) fs r.errored_at
  email_field ← get_field (codes "email_field") dec_string fs r.email_field
  sync_all_groups ← get_field (codes "sync_all_groups") dec_bool fs r.sync_all_groups
  inserted_at ← get_field (codes "inserted_at") dec_time fs r.inserted_at
  updated_at ← get_field (codes "updated_at") dec_time fs r.updated_at
  some (record {
    id = id;
    account_id = account_id;
    name = name;
    tenant_id = tenant_id;
    is_disabled = is_disabled;
    disabled_reason = disabled_reason;
    synced_at = synced_at;
    error_message = error_message;
    errored_at = errored_at;
    email_field = email_field;
    sync_all_groups = sync_all_groups;
    inserted_at = inserted_at;
    updated_at = updated_at;
  })

pub record GoogleDirectory : Type 0 where
  pub id : Str
  pub account_id : Str
  pub name : Str
  pub domain : Str
  pub impersonation_email : Str
  pub is_disabled : Bool
  pub disabled_reason : Str
  pub synced_at : Option Time
  pub error_message : Str
  pub errored_at : Option Time
  pub group_sync_mode : Str
  pub orgunit_sync_enabled : Bool
  pub inserted_at : Time
  pub updated_at : Time

abbrev pub zero_google_directory : GoogleDirectory
zero_google_directory = record {
  id = [];
  account_id = [];
  name = [];
  domain = [];
  impersonation_email = [];
  is_disabled = false;
  disabled_reason = [];
  synced_at = none;
  error_message = [];
  errored_at = none;
  group_sync_mode = [];
  orgunit_sync_enabled = false;
  inserted_at = [];
  updated_at = [];
}

unfoldable pub google_directory_fields : Fields → GoogleDirectory → Option GoogleDirectory
unfolding get_field dec_bool dec_pointer dec_string dec_time
google_directory_fields fs r = do
  id ← get_field (codes "id") dec_string fs r.id
  account_id ← get_field (codes "account_id") dec_string fs r.account_id
  name ← get_field (codes "name") dec_string fs r.name
  domain ← get_field (codes "domain") dec_string fs r.domain
  impersonation_email ← get_field (codes "impersonation_email") dec_string fs r.impersonation_email
  is_disabled ← get_field (codes "is_disabled") dec_bool fs r.is_disabled
  disabled_reason ← get_field (codes "disabled_reason") dec_string fs r.disabled_reason
  synced_at ← get_field (codes "synced_at") (dec_pointer dec_time []) fs r.synced_at
  error_message ← get_field (codes "error_message") dec_string fs r.error_message
  errored_at ← get_field (codes "errored_at") (dec_pointer dec_time []) fs r.errored_at
  group_sync_mode ← get_field (codes "group_sync_mode") dec_string fs r.group_sync_mode
  orgunit_sync_enabled ← get_field (codes "orgunit_sync_enabled") dec_bool fs r.orgunit_sync_enabled
  inserted_at ← get_field (codes "inserted_at") dec_time fs r.inserted_at
  updated_at ← get_field (codes "updated_at") dec_time fs r.updated_at
  some (record {
    id = id;
    account_id = account_id;
    name = name;
    domain = domain;
    impersonation_email = impersonation_email;
    is_disabled = is_disabled;
    disabled_reason = disabled_reason;
    synced_at = synced_at;
    error_message = error_message;
    errored_at = errored_at;
    group_sync_mode = group_sync_mode;
    orgunit_sync_enabled = orgunit_sync_enabled;
    inserted_at = inserted_at;
    updated_at = updated_at;
  })

pub record OktaDirectory : Type 0 where
  pub id : Str
  pub account_id : Str
  pub name : Str
  pub client_id : Str
  pub kid : Str
  pub okta_domain : Str
  pub is_disabled : Bool
  pub disabled_reason : Str
  pub synced_at : Option Time
  pub error_message : Str
  pub errored_at : Option Time
  pub inserted_at : Time
  pub updated_at : Time

abbrev pub zero_okta_directory : OktaDirectory
zero_okta_directory = record {
  id = [];
  account_id = [];
  name = [];
  client_id = [];
  kid = [];
  okta_domain = [];
  is_disabled = false;
  disabled_reason = [];
  synced_at = none;
  error_message = [];
  errored_at = none;
  inserted_at = [];
  updated_at = [];
}

unfoldable pub okta_directory_fields : Fields → OktaDirectory → Option OktaDirectory
unfolding get_field dec_bool dec_pointer dec_string dec_time
okta_directory_fields fs r = do
  id ← get_field (codes "id") dec_string fs r.id
  account_id ← get_field (codes "account_id") dec_string fs r.account_id
  name ← get_field (codes "name") dec_string fs r.name
  client_id ← get_field (codes "client_id") dec_string fs r.client_id
  kid ← get_field (codes "kid") dec_string fs r.kid
  okta_domain ← get_field (codes "okta_domain") dec_string fs r.okta_domain
  is_disabled ← get_field (codes "is_disabled") dec_bool fs r.is_disabled
  disabled_reason ← get_field (codes "disabled_reason") dec_string fs r.disabled_reason
  synced_at ← get_field (codes "synced_at") (dec_pointer dec_time []) fs r.synced_at
  error_message ← get_field (codes "error_message") dec_string fs r.error_message
  errored_at ← get_field (codes "errored_at") (dec_pointer dec_time []) fs r.errored_at
  inserted_at ← get_field (codes "inserted_at") dec_time fs r.inserted_at
  updated_at ← get_field (codes "updated_at") dec_time fs r.updated_at
  some (record {
    id = id;
    account_id = account_id;
    name = name;
    client_id = client_id;
    kid = kid;
    okta_domain = okta_domain;
    is_disabled = is_disabled;
    disabled_reason = disabled_reason;
    synced_at = synced_at;
    error_message = error_message;
    errored_at = errored_at;
    inserted_at = inserted_at;
    updated_at = updated_at;
  })
