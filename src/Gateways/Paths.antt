-- ===== src/Gateways/Paths.antt =====
-- The paths of the Gateways of a Site, and what the service asks of the API.
use firezone_go.Prelude.{
  ℕ, ◌-◌, true, none, some, some_inj, Str, codes, List, [], ◌∷◌, ◌++◌, ◌≡◌, sym, ◌∙◌, ap, All,
  IsBytes, arith,
}
use firezone_go.Prelude.Int.{pos, ◌≤ℤ◌, max_int64}
use firezone_go.Calls.Laws.{do_into_log}
use firezone_go.Errors.{Result}
use firezone_go.Gateways.{GatewaysService, base_path, rotate_token}
use firezone_go.Gateways.Types.{rotated_gateway_token_fields, zero_rotated_gateway_token}
use firezone_go.Go.Json.Decode.{dec_struct}
use firezone_go.Http.{World, Log, request_of}
use firezone_go.Go.Strings.{trim_suffix}
use firezone_go.Go.Url.{Url, escaped_path}
use firezone_go.Path.{check_id, build_path}
use firezone_go.Path.Segments.{segments_of, segments_of-build_path}
use firezone_go.Path.Resolve.{resolve_path-build_path}
use firezone_go.Retry.{max_retry_wait, max_retry_jitter, request_with_retry}
use firezone_go.Retry.Trace.{Leaves, request_with_retry_trace}
use firezone_go.Retry.Wait.{IsRandom}

fixed-IsBytes : IsBytes (codes "sites") × IsBytes (codes "gateways")
fixed-IsBytes = ground arith

-- The server reads the segments of a path of this service as the caller gave them.
segments_of-base_path :
    (s : GatewaysService) (segments : List Str)
    → IsBytes s.site_id
    → All IsBytes segments
    → segments_of (base_path s segments)
      ≡ some ((codes "sites" ∷ s.site_id ∷ codes "gateways" ∷ []) ++ segments)
unfolding base_path
segments_of-base_path s segments site bytes =
    segments_of-build_path _ (λ e. cc) (fixed-IsBytes.0, (site, (fixed-IsBytes.1, bytes)))

abbrev site_of : List Str → Str
site_of (a ∷ b ∷ l) = b
site_of _ = []

abbrev rest_of : List Str → List Str
rest_of (a ∷ b ∷ c ∷ l) = l
rest_of _ = []

-- Two services and two lists of segments, of any bytes, that give one path are of the same Site
-- and are the same list: no ID makes an operation reach a Gateway or a Site that was not named.
pub base_path-injective :
    (s t : GatewaysService) (xs ys : List Str)
    → IsBytes s.site_id
    → IsBytes t.site_id
    → All IsBytes xs
    → All IsBytes ys
    → base_path s xs ≡ base_path t ys
    → (s.site_id ≡ t.site_id) × (xs ≡ ys)
base_path-injective s t xs ys hs ht hx hy same =
    let whole = some_inj (
      sym (segments_of-base_path s xs hs hx)
      ∙ ap segments_of same
      ∙ segments_of-base_path t ys ht hy) in
    (ap site_of whole, ap rest_of whole)

abbrev pub rotation : GatewaysService → Str → List Str
rotation s id =
    codes "sites" ∷ s.site_id ∷ codes "gateways" ∷ id ∷ codes "token" ∷ codes "rotate" ∷ []

rotation-IsBytes :
    (s : GatewaysService) (id : Str) → IsBytes s.site_id → IsBytes id → All IsBytes (rotation s id)
rotation-IsBytes s id site bytes =
    (fixed-IsBytes.0, (site, (fixed-IsBytes.1, (bytes, ground arith))))

-- With accepted IDs of bytes, a base URL with a path of bytes, retries enabled, a budget of `n`
-- retries, random numbers in their range and a cap that leaves room for the jitter in an int64,
-- rotating the token of a Gateway sends only POST requests with no body, all to one URL. Its
-- escaped path is the base's without a final slash, a slash and a path that the server reads as
-- "sites", the Site's ID, "gateways", the Gateway's ID, "token" and "rotate". At most `n + 1`
-- requests are sent, whatever is answered.
rotate_token_trace :
    (w : World) (s : GatewaysService) (n : ℕ) (id : Str) (log : Log)
    → check_id (codes "site ID") s.site_id ≡ none
    → check_id (codes "Gateway ID") id ≡ none
    → IsBytes s.client.base_url.path
    → IsBytes s.site_id
    → IsBytes id
    → ((past : Log) → IsRandom (w.random past))
    → max_retry_wait s.client ≤ℤ pos (max_int64 - max_retry_jitter)
    → s.client.retry_enabled ≡ true
    → s.client.max_retries ≡ pos n
    → (u : Url) × (built : Str) × (r : Result Str) × (escaped_path u
        ≡ trim_suffix (escaped_path s.client.base_url) (codes "/") ++ b'/' ∷ built)
      × (segments_of built ≡ some (rotation s id))
      × Leaves s.client
          (request_of s.client (codes "POST") u none)
          n
          0
          log
          r
          (rotate_token w s id log).1
unfolding rotate_token base_path
rotate_token_trace w s n id log site gateway base_bytes site_bytes id_bytes random room enabled
      budget =
    let bytes = rotation-IsBytes s id site_bytes id_bytes in
    let built = build_path (rotation s id) in
    let (prefix, u, found, _, _, sends_path, _) =
      resolve_path-build_path s.client.base_url (rotation s id) base_bytes bytes in
    let trace =
      request_with_retry_trace w s.client n (codes "POST") built none none u log random room enabled
        budget found in
    let call = request_with_retry w s.client (codes "POST") built none none log in
    (
      u,
      built,
      call.0,
      sends_path,
      segments_of-build_path (rotation s id) (λ e. cc) bytes,
      rw
          (
            site,
            gateway,
            do_into_log w s.client (codes "POST") built none none
                (dec_struct rotated_gateway_token_fields) zero_rotated_gateway_token log,
          )
          trace,
    )
