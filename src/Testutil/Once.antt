-- ===== src/Testutil/Once.antt =====
-- The client of the tests of internal/testutil/testutil.go does not retry.
use firezone_go.Prelude.{
  Bool, true, false, List, [], ◌∷◌, Option, none, some, Str, codes, ◌≡◌, refl, inl, inr, map, All,
  arith, Option-cases, str_eq_iff,
}
use firezone_go.Client.{
  Client, new_client, apply_options, with_http_client, with_user_agent, with_request_timeout,
  with_retry, with_retry_max_wait, check_base_url,
}
use firezone_go.Client.Options.{
  Setting, http_client, user_agent, request_timeout, retry, retry_max_wait, option_of,
}
use firezone_go.Errors.{Result, Result-cases, ok}
use firezone_go.Go.Url.{Url}
use firezone_go.Go.Values.{Values}
use firezone_go.Http.{World, Log, RequestBody, raw_request}
use firezone_go.Retry.{request_with_retry}
use firezone_go.Testutil.{new_client_with_options}

-- Every option but the one on retries.
abbrev pub leaves_retries : Setting → Bool
leaves_retries (http_client hc) = true
leaves_retries (user_agent ua) = true
leaves_retries (request_timeout d) = true
leaves_retries (retry enabled n) = false
leaves_retries (retry_max_wait d) = true

abbrev IsTestClient : Client → Type 0
IsTestClient c = (c.retry_enabled ≡ false) × (c.token ≡ codes "test-token")

option_of-IsTestClient :
    (s : Setting) (c c' : Client)
    → leaves_retries s ≡ true
    → IsTestClient c
    → option_of s c ≡ ok c'
    → IsTestClient c'
unfolding with_http_client with_user_agent with_request_timeout with_retry_max_wait
option_of-IsTestClient (http_client none) c c' l h e = cc
option_of-IsTestClient (http_client (some hc)) c c' l h e = ground arith
option_of-IsTestClient (user_agent ua) c c' l h e = ground (arith, str_eq_iff ua (codes ""))
option_of-IsTestClient (request_timeout d) c c' l h e = ground arith
option_of-IsTestClient (retry enabled n) c c' l h e = cc
option_of-IsTestClient (retry_max_wait d) c c' l h e = ground arith

apply_options-IsTestClient :
    (ss : List Setting) (c c' : Client)
    → All (λ s. leaves_retries s ≡ true) ss
    → IsTestClient c
    → apply_options (map option_of ss) c ≡ ok c'
    → IsTestClient c'
unfolding apply_options
apply_options-IsTestClient [] c c' l h e = ground arith
apply_options-IsTestClient (s ∷ ss) c c' (l, ls) h e = elim (Result-cases (option_of s c)) [
  | inl (d, same) ↦
      apply_options-IsTestClient ss d c' ls (option_of-IsTestClient s c d l h same)
        (rw (same, apply_options) at e)
  | inr (x, failed) ↦ cc (rw (failed, apply_options) at e)
]

new_client-IsTestClient :
    (parse_url : Str → Result Url) (go_version server_url : Str) (settings : List Setting)
    (c : Client)
    → All (λ s. leaves_retries s ≡ true) settings
    → new_client_with_options parse_url go_version server_url (map option_of settings) ≡ ok c
    → IsTestClient c
unfolding new_client_with_options new_client with_retry
new_client-IsTestClient parse_url go_version server_url settings c l e =
    elim (Result-cases (parse_url server_url)) [
      | inr (x, failed) ↦ cc (rw (failed, new_client) at e)
      | inl (u, parsed) ↦ elim (Option-cases (check_base_url server_url u)) [
        | inr (x, refused) ↦ cc (rw (parsed, new_client, refused) at e)
        | inl accepted ↦
            apply_options-IsTestClient settings _ c l (refl, refl)
              (rw (parsed, new_client, accepted, apply_options) at e)
      ]
    ]

-- With a client that `NewClientWithOptions` returns, for any of the package's options but
-- `WithRetry`, a call of `requestWithRetry` is one round trip, whatever is answered.
pub new_client_with_options_once :
    (parse_url : Str → Result Url) (go_version server_url : Str) (settings : List Setting)
    (c : Client) (w : World) (method request_path : Str) (query : Option Values)
    (body : RequestBody) (log : Log)
    → All (λ s. leaves_retries s ≡ true) settings
    → new_client_with_options parse_url go_version server_url (map option_of settings) ≡ ok c
    → request_with_retry w c method request_path query body log
      ≡ raw_request w c method request_path query body log
unfolding request_with_retry
new_client_with_options_once parse_url go_version server_url settings c w method request_path query
      body log l e =
    simp ((new_client-IsTestClient parse_url go_version server_url settings c l e).0) refl
