-- ===== src/Client/Options.antt =====
-- What NewClient guarantees of the clients that it returns.
use firezone_go.Prelude.{
  Bool, false, List, [], ◌∷◌, ◌++◌, Option, none, some, Str, codes, str_eq_iff, map, ◌≡◌, ◌≢◌, ◌⊎◌,
  ◌↔◌, inl, inr, ap, ◌∙◌, arith, Option-cases,
}
use firezone_go.Prelude.Int.{ℤ, pos, ◌≤ℤ◌}
use firezone_go.Errors.{GoError, Result, Result-cases, ok, err}
use firezone_go.Go.Url.{Url}
use firezone_go.Client.{
  HttpClient, Client, ClientOption, with_http_client, with_user_agent, with_request_timeout,
  with_retry, with_retry_max_wait, check_base_url, fresh_client, apply_options, new_client,
}

-- A base URL that a request can be built on.
pub record IsBaseUrl (u : Url) : Type 0 where
  pub scheme : (u.scheme ≡ codes "http") ⊎ (u.scheme ≡ codes "https")
  pub host : u.host ≢ codes ""
  pub no_query : u.raw_query ≡ codes ""
  pub no_force : u.force_query ≡ false
  pub no_fragment : u.fragment ≡ codes ""

-- `check_base_url` accepts exactly the URLs with an http or https scheme, a host, and neither a
-- query (not even an empty one behind a '?') nor a fragment.
check_base_url_iff : (raw : Str) (u : Url) → (check_base_url raw u ≡ none) ↔ IsBaseUrl u
unfolding check_base_url
check_base_url_iff raw u = ground (
  arith,
  str_eq_iff u.scheme (codes "http"),
  str_eq_iff u.scheme (codes "https"),
  str_eq_iff u.host (codes ""),
  str_eq_iff u.raw_query (codes ""),
  str_eq_iff u.fragment (codes ""),
)

-- The options that the package offers, with their arguments.
pub data Setting : Type 0 where
  http_client : Option HttpClient → Setting
  user_agent : Str → Setting
  request_timeout : ℤ → Setting
  retry : Bool → ℤ → Setting
  retry_max_wait : ℤ → Setting

abbrev pub option_of : Setting → ClientOption
option_of (http_client hc) = with_http_client hc
option_of (user_agent ua) = with_user_agent ua
option_of (request_timeout d) = with_request_timeout d
option_of (retry enabled n) = with_retry enabled n
option_of (retry_max_wait d) = with_retry_max_wait d

pub record IsConfigured (u : Url) (token : Str) (c : Client) : Type 0 where
  pub base : c.base_url ≡ u
  pub bearer : c.token ≡ token
  pub agent : c.user_agent ≢ codes ""
  pub timeout : pos 0 ≤ℤ c.request_timeout
  pub budget : pos 0 ≤ℤ c.max_retries

module _ (u : Url) (token : Str) where
  option_of-IsConfigured :
      (s : Setting) (c c' : Client)
      → IsConfigured u token c
      → option_of s c ≡ ok c'
      → IsConfigured u token c'
  unfolding with_http_client with_user_agent with_request_timeout with_retry with_retry_max_wait
  option_of-IsConfigured (http_client none) c c' h e = cc
  option_of-IsConfigured (http_client (some hc)) c c' h e = ground arith
  option_of-IsConfigured (user_agent ua) c c' h e = ground (arith, str_eq_iff ua (codes ""))
  option_of-IsConfigured (request_timeout d) c c' h e = ground arith
  option_of-IsConfigured (retry enabled n) c c' h e = ground arith
  option_of-IsConfigured (retry_max_wait d) c c' h e = ground arith

  apply_options-IsConfigured :
      (ss : List Setting) (c c' : Client)
      → IsConfigured u token c
      → apply_options (map option_of ss) c ≡ ok c'
      → IsConfigured u token c'
  unfolding apply_options
  apply_options-IsConfigured [] c c' h e = ground arith
  apply_options-IsConfigured (s ∷ ss) c c' h e = elim (Result-cases (option_of s c)) [
    | inl (d, same) ↦
        apply_options-IsConfigured ss d c' (option_of-IsConfigured s c d h same)
          (rw (same, apply_options) at e)
    | inr (x, failed) ↦ cc (rw (failed, apply_options) at e)
  ]

  fresh_client-IsConfigured :
      (go_version : Str) → IsConfigured u token (fresh_client go_version u token)
  fresh_client-IsConfigured go_version = ground arith

-- A client that NewClient returns, for any of the package's options with any arguments, has the
-- parsed base URL, which passes the check, and the given token; its user agent is not empty, and
-- its timeout and its retry budget are not negative.
pub new_client-IsConfigured :
    (parse_url : Str → Result Url) (go_version base_url token : Str) (settings : List Setting)
    (c : Client)
    → new_client parse_url go_version base_url token (map option_of settings) ≡ ok c
    → (u : Url) × (parse_url base_url ≡ ok u) × IsBaseUrl u × IsConfigured u token c
unfolding new_client
new_client-IsConfigured parse_url go_version base_url token settings c e =
    elim (Result-cases (parse_url base_url)) [
      | inr (x, failed) ↦ cc (rw (failed, new_client) at e)
      | inl (u, parsed) ↦ elim (Option-cases (check_base_url base_url u)) [
        | inr (x, refused) ↦ cc (rw (parsed, new_client, refused) at e)
        | inl accepted ↦ (
          u,
          parsed,
          (check_base_url_iff base_url u).0 accepted,
          apply_options-IsConfigured u token settings _ c
              (fresh_client-IsConfigured u token go_version)
              (rw (parsed, new_client, accepted) at e),
        )
      ]
    ]

-- Options are applied in order, and NewClient stops at the first that fails: its error is the
-- result, whatever the options behind it are.
apply_options_first_error :
    (before after : List ClientOption) (o : ClientOption) (c d : Client) (x : GoError)
    → apply_options before c ≡ ok d
    → o d ≡ err x
    → apply_options (before ++ o ∷ after) c ≡ err x
unfolding apply_options
apply_options_first_error [] after o c d x h k =
    let same : c ≡ d = cc in rw (ap o same ∙ k, apply_options)
apply_options_first_error (p ∷ before) after o c d x h k = elim (Result-cases (p c)) [
  | inl (c', same) ↦
      rw (same, apply_options)
        (apply_options_first_error before after o c' d x (rw (same, apply_options) at h) k)
  | inr (y, failed) ↦ cc (rw (failed, apply_options) at h)
]
