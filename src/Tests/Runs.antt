-- ===== src/Tests/Runs.antt =====
-- A run from a service down to the server.
use firezone_go.Prelude.{[], codes, ◌≡◌, refl}
use firezone_go.Errors.{Result, ok}
use firezone_go.Gateways
use firezone_go.Tests.Data.{world, gateways}

token :
    (Gateways.rotate_token world gateways (codes "g1") []).0
    ≡ ok (record { id = codes "t1"; token = codes "s" })
unfolding Gateways.rotate_token firezone_go.Retry.request_with_retry firezone_go.Http.raw_request
    firezone_go.Path.resolve_path firezone_go.Go.Escape.unescape firezone_go.Go.Strings.trim_suffix
    firezone_go.Go.Url.escaped_path firezone_go.Go.Escape.escape firezone_go.Go.Strings.join
    firezone_go.Retry.rate_limit firezone_go.Errors.is_rate_limited
    firezone_go.Errors.Api.parse_api_error firezone_go.Errors.Api.parse_details
    firezone_go.Calls.decode_data
token = refl
