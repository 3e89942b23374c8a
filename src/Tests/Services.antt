-- ===== src/Tests/Services.antt =====
-- What the services refuse.
use firezone_go.Prelude.{true, false, [], ◌∷◌, none, some, Str, codes, ◌≡◌, refl}
use firezone_go.ClientDevices
use firezone_go.Errors.{GoError, errorf, err, is_error, err_nil_request, err_missing_id}
use firezone_go.Gateways
use firezone_go.Gateways.Guards.{parent_directory, refused_site_id_lem, nil_gateway_lem}
use firezone_go.Groups
use firezone_go.Path.{check_id}
use firezone_go.Resources
use firezone_go.Memberships
use firezone_go.PoolMembers
use firezone_go.Sites
use firezone_go.Tests.Data.{accepted, client, world, gateways, bad_gateways}

abbrev refusal_of : Str → GoError
refusal_of name =
    errorf (codes "firezone: %s %q is not a valid path segment") (name ∷ codes ".." ∷ [])

refused : (name : Str) → check_id name (codes "..") ≡ some (refusal_of name)
unfolding check_id
refused name = refl

site_accepted : check_id (codes "site ID") gateways.site_id ≡ none
unfolding check_id
site_accepted = refl

abbrev sites : Sites.SitesService
sites = record { client = client }

abbrev groups : Groups.GroupsService
groups = record { client = client }

abbrev resources : Resources.ResourcesService
resources = record { client = client }

abbrev clients : ClientDevices.ClientsService
clients = record { client = client }

refused_site_id_lem_example :
    (is_error (refusal_of (codes "site ID")) err_missing_id ≡ false)
    × (Gateways.get world bad_gateways (codes "..") [] ≡ (err (refusal_of (codes "site ID")), []))
    × (Gateways.list world bad_gateways none [] ≡ (err (refusal_of (codes "site ID")), []))
    × (Gateways.provision world bad_gateways none [] ≡ (err (refusal_of (codes "site ID")), []))
    × (Gateways.update world bad_gateways (codes "..") none []
        ≡ (err (refusal_of (codes "site ID")), []))
    × (Gateways.rotate_token world bad_gateways (codes "..") []
        ≡ (err (refusal_of (codes "site ID")), []))
    × (Gateways.delete world bad_gateways (codes "..") []
        ≡ (err (refusal_of (codes "site ID")), []))
refused_site_id_lem_example =
    refused_site_id_lem world bad_gateways (refusal_of (codes "site ID")) (codes "..") none none
      none [] parent_directory

nil_gateway_lem_example :
    (e : GoError) × (is_error e err_nil_request ≡ true)
    × (Gateways.provision world gateways none [] ≡ (err e, []))
    × (Gateways.update world gateways (codes "p1") none [] ≡ (err e, []))
nil_gateway_lem_example =
    nil_gateway_lem world gateways (codes "p1") [] site_accepted (accepted (codes "Gateway ID"))

abbrev bad_memberships : Memberships.MembershipsService
bad_memberships = record { client = client; group_id = codes ".." }

abbrev bad_pool_members : PoolMembers.PoolMembersService
bad_pool_members = record { client = client; resource_id = codes ".." }
