-- ===== src/Services.antt =====
-- The services of a Client: the fields that NewClient of firezone.go sets last, each of them holding
-- the client.
pub mod Credentials
use firezone_go.Actors.{ActorsService}
use firezone_go.AuthProviders.EmailOtp.{EmailOtpAuthProvidersService}
use firezone_go.AuthProviders.Entra.{EntraAuthProvidersService}
use firezone_go.AuthProviders.Google.{GoogleAuthProvidersService}
use firezone_go.AuthProviders.Oidc.{OidcAuthProvidersService}
use firezone_go.AuthProviders.Okta.{OktaAuthProvidersService}
use firezone_go.Client.{Client}
use firezone_go.ClientDevices.{ClientsService}
use firezone_go.Directories.Entra.{EntraDirectoriesService}
use firezone_go.Directories.Google.{GoogleDirectoriesService}
use firezone_go.Directories.Okta.{OktaDirectoriesService}
use firezone_go.Groups.{GroupsService}
use firezone_go.Policies.{PoliciesService}
use firezone_go.Resources.{ResourcesService}
use firezone_go.Sites.{SitesService}

pub record Services : Type 0 where
  pub sites : SitesService
  pub resources : ResourcesService
  pub policies : PoliciesService
  pub groups : GroupsService
  pub actors : ActorsService
  pub client_devices : ClientsService
  pub email_otp_auth_providers : EmailOtpAuthProvidersService
  pub oidc_auth_providers : OidcAuthProvidersService
  pub google_auth_providers : GoogleAuthProvidersService
  pub entra_auth_providers : EntraAuthProvidersService
  pub okta_auth_providers : OktaAuthProvidersService
  pub entra_directories : EntraDirectoriesService
  pub google_directories : GoogleDirectoriesService
  pub okta_directories : OktaDirectoriesService

-- What NewClient does behind the options: every service of a client is given that client.
abbrev pub services_of : Client → Services
services_of c = record {
  sites = record { client = c };
  resources = record { client = c };
  policies = record { client = c };
  groups = record { client = c };
  actors = record { client = c };
  client_devices = record { client = c };
  email_otp_auth_providers = record { client = c };
  oidc_auth_providers = record { client = c };
  google_auth_providers = record { client = c };
  entra_auth_providers = record { client = c };
  okta_auth_providers = record { client = c };
  entra_directories = record { client = c };
  google_directories = record { client = c };
  okta_directories = record { client = c };
}
