-- ===== src/Tests/Requests/Memberships.antt =====
-- The requests of the Memberships service, at one client.
use firezone_go.Prelude.{IsBytes, List, Str, [], arith, codes, none, some, ◌∷◌}
use firezone_go.Calls.{wrap_body}
use firezone_go.Calls.Requests.{Asks, sent_body}
use firezone_go.Memberships.{list, replace_all, patch, MembershipsService}
use firezone_go.Query.{list_options_to_query}
use firezone_go.Memberships.Requests.{memberships_requests_lem, members_of, entries, changes}
use firezone_go.Tests.Data.{client, world}
use firezone_go.Tests.Requests.{ready}

abbrev members : MembershipsService
members = record { client = client; group_id = codes "g1" }

abbrev two : List Str
two = codes "a1" ∷ codes "a2" ∷ []

group_id-IsBytes : IsBytes members.group_id
group_id-IsBytes = ground arith

memberships_requests_lem_example :
    (Asks members.client 2
      (codes "GET")
      (members_of members)
      (some (list_options_to_query none))
      none
      []
      (list world members none []).1)
    × (Asks members.client 2
        (codes "PUT")
        (members_of members)
        none
        (sent_body (wrap_body (codes "memberships") (some (entries two))))
        []
        (replace_all world members two []).1)
    × (Asks members.client 2
        (codes "PATCH")
        (members_of members)
        none
        (sent_body (wrap_body (codes "memberships") (some (changes two []))))
        []
        (patch world members two [] []).1)
memberships_requests_lem_example =
    memberships_requests_lem world members 2 none two two [] [] ready group_id-IsBytes
