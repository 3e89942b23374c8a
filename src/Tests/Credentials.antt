-- ===== src/Tests/Credentials.antt =====
-- A client that NewClient returns, and where its token is sent.
use firezone_go.Prelude.{List, [], ◌∷◌, ◌++◌, none, codes, Str, ◌≡◌, refl, All, map, true, arith}
use firezone_go.Prelude.Int.{pos}
use firezone_go.Client.{Client, new_client, with_retry, with_user_agent, fresh_client}
use firezone_go.Client.Options.{Setting, user_agent, retry, option_of}
use firezone_go.Calls.Requests.{Ready}
use firezone_go.Errors.{Result, ok}
use firezone_go.Go.Url.{Url}
use firezone_go.Http.{Log}
use firezone_go.Retry.{request_with_retry, max_retry_wait}
use firezone_go.Services.Credentials.{IsCarried, new_client-request_with_retry}
use firezone_go.Tests.Data.{base, world, random_lem}
use firezone_go.Tests.Requests.{base-IsBytes}

abbrev parse_url : Str → Result Url
parse_url s = ok base

abbrev settings : List Setting
settings = user_agent (codes "cli") ∷ retry true (pos 3) ∷ []

abbrev built : Client
built = record (fresh_client (codes "go1.22") base (codes "secret")) {
  user_agent = codes "cli";
  max_retries = pos 3;
}

constructed :
    new_client parse_url
      (codes "go1.22")
      (codes "https://api.example.com/v1/")
      (codes "secret")
      (map option_of settings)
    ≡ ok built
unfolding new_client with_retry with_user_agent
constructed = refl

ready : Ready world built 3
unfolding max_retry_wait
ready = record { base_bytes = base-IsBytes; random = random_lem; room = omega arith; budget = refl }

new_client-request_with_retry_example :
    (u : Url) × (parse_url (codes "https://api.example.com/v1/") ≡ ok u)
    × (events : Log) × ((request_with_retry world built
          (codes "GET")
          (codes "../sites")
          none
          none
          []).1
        ≡ events ++ [])
    × All (IsCarried u (codes "secret")) events
new_client-request_with_retry_example =
    new_client-request_with_retry parse_url (codes "go1.22") (codes "https://api.example.com/v1/")
      (codes "secret") settings built world 3 (codes "GET") (codes "../sites") none none []
      constructed ready
