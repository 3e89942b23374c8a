-- ===== src/Tests/Data.antt =====
-- A client, and a server that answers the first request by 429 and every later one by a token.
use firezone_go.Prelude.{Str, ◌≡◌, refl, ◌-◌, true, false, [], ◌∷◌, none, codes, arith}
use firezone_go.Prelude.Int.{pos, ◌≤ℤ◌, max_int64}
use firezone_go.Client.{Client, own}
use firezone_go.Errors.Api.{Response}
use firezone_go.Gateways.{GatewaysService}
use firezone_go.Actors
use firezone_go.Policies
use firezone_go.Path.{check_id, resolve_path}
use firezone_go.Errors.{ok}
use firezone_go.Go.Url.{Url}
use firezone_go.Http.{World, Log, Reply, replied}
use firezone_go.Retry.{max_retry_wait, max_retry_jitter}
use firezone_go.Retry.Wait.{IsRandom}

abbrev pub base : Url
base = record {
  scheme = codes "https";
  user = [];
  host = codes "api.example.com";
  path = codes "/v1/";
  raw_path = [];
  force_query = false;
  raw_query = [];
  fragment = [];
}

abbrev pub client : Client
client = record {
  base_url = base;
  token = codes "secret";
  http_client = own;
  user_agent = codes "tests";
  request_timeout = pos 1000;
  retry_enabled = true;
  max_retries = pos 2;
  retry_max_wait = pos 0;
}

abbrev pub limited : Response
limited = record { status_code = 429; retry_after = codes "5"; body = [] }

abbrev pub token_response : Response
token_response = record {
  status_code = 200;
  retry_after = [];
  body = codes "{\"data\":{\"id\":\"t1\",\"token\":\"s\"}}";
}

abbrev answer : Log → Reply
answer [] = replied limited
answer (_ ∷ _) = replied token_response

abbrev pub world : World
world = record {
  refusal = λ req. none;
  reply = λ log req. answer log;
  ctx_done = λ log d. none;
  random = λ log n. 0;
}

pub random_lem : (log : Log) → IsRandom (world.random log)
random_lem log n = omega arith

pub room : max_retry_wait client ≤ℤ pos (max_int64 - max_retry_jitter)
unfolding max_retry_wait
room = omega arith

abbrev pub gateways : GatewaysService
gateways = record { client = client; site_id = codes "a/b" }

abbrev pub bad_gateways : GatewaysService
bad_gateways = record { client = client; site_id = codes ".." }

pub accepted : (name : Str) → check_id name (codes "p1") ≡ none
unfolding check_id
accepted name = refl

abbrev pub policies : Policies.PoliciesService
policies = record { client = client }

abbrev pub actors : Actors.ActorsService
actors = record { client = client }

abbrev pub sites_url : Url
sites_url = record base { path = codes "/v1/sites"; raw_path = codes "/v1/sites" }

pub found : resolve_path client.base_url (codes "sites") ≡ ok sites_url
unfolding resolve_path firezone_go.Go.Escape.unescape firezone_go.Go.Strings.trim_suffix
    firezone_go.Go.Url.escaped_path firezone_go.Go.Escape.escape
found = refl
