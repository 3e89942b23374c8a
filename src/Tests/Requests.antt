-- ===== src/Tests/Requests.antt =====
-- That the client of these tests is ready to make requests.
mod Actors
mod AuthProviders
mod ClientDevices
mod Directories
mod Gateways
mod Memberships
mod Policies
mod Resources
use firezone_go.Prelude.{IsBytes, arith, refl}
use firezone_go.Calls.Requests.{Ready}
use firezone_go.Tests.Data.{base, client, world, random_lem, room}

pub base-IsBytes : IsBytes base.path
base-IsBytes = ground arith

pub ready : Ready world client 2
ready = record { base_bytes = base-IsBytes; random = random_lem; room = room; budget = refl }
