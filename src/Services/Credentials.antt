-- ===== src/Services/Credentials.antt =====
-- Where the token of a client that NewClient returns is sent.
use firezone_go.Prelude.{
  ℕ, List, [], ◌++◌, Option, none, some, Str, codes, ◌≡◌, ◌≢◌, refl, ap, sym, ◌∙◌, map, All,
  All-weaken, arith, inl, inr, Option-cases,
}
use mathlib.Core.Path.{subst}
use firezone_go.Client.{Client, new_client}
use firezone_go.Client.Options.{Setting, option_of, new_client-IsConfigured, IsConfigured}
use firezone_go.Calls.Requests.{Ready}
use firezone_go.Errors.{Result, Result-cases, ok, err, GoError, external, errorf_w}
use firezone_go.Go.Escape.{unescape, path_segment}
use firezone_go.Go.Strings.{trim_suffix}
use firezone_go.Go.Url.{Url, escaped_path}
use firezone_go.Go.Values.{Values}
use firezone_go.Http.{
  World, Log, Event, sent, waited, Request, RequestBody, request_of, with_query, raw_request,
}
use firezone_go.Path.{resolve_path}
use firezone_go.Retry.{request_with_retry, rate_limit}
use firezone_go.Retry.First.{request_with_retry_failure}
use firezone_go.Retry.Sent.{request_with_retry-Sends}
use firezone_go.Retry.Trace.{IsOurs, rate_limit_external}

-- A request with the token as its bearer, to the host of the base URL and by its scheme, and with a
-- user agent.
pub record Carries (base : Url) (token : Str) (req : Request) : Type 0 where
  pub bearer : req.authorization ≡ codes "Bearer " ++ token
  pub scheme : req.url.scheme ≡ base.scheme
  pub host : req.url.host ≡ base.host
  pub agent : req.user_agent ≢ codes ""

abbrev pub IsCarried : Url → Str → Event → Type 0
IsCarried base token (sent req) = Carries base token req
IsCarried base token (waited d) = Unit

resolve_path_host :
    (base : Url) (request_path : Str) (u : Url)
    → resolve_path base request_path ≡ ok u
    → (u.scheme ≡ base.scheme) × (u.host ≡ base.host)
unfolding resolve_path
resolve_path_host base request_path u e =
    let escaped = trim_suffix (escaped_path base) (codes "/") ++ (codes "/" ++ request_path) in
    elim (Option-cases (unescape path_segment escaped)) [
      | inl failed ↦ cc (rw (failed, resolve_path) at e)
      | inr (decoded, read) ↦ let e = rw (read, resolve_path) at e in ground arith
    ]

err_inj : {A : Type 0} {x y : GoError} → Path (Result A) (err x) (err y) → x ≡ y
err_inj e = cc

resolve_path_failure :
    (base : Url) (request_path : Str) (x : GoError)
    → resolve_path base request_path ≡ err x
    → rate_limit x ≡ none
unfolding resolve_path
resolve_path_failure base request_path x e =
    let escaped = trim_suffix (escaped_path base) (codes "/") ++ (codes "/" ++ request_path) in
    elim (Option-cases (unescape path_segment escaped)) [
      | inr (decoded, read) ↦ cc (rw (read, resolve_path) at e)
      | inl failed ↦
          let same : errorf_w (codes "firezone: building request path: %w") [] (external escaped)
              ≡ x =
            err_inj (rw (failed, resolve_path) at e) in
          ap rate_limit (sym same) ∙ rate_limit_external _ _ escaped
    ]

raw_request_unresolved :
    (w : World) (c : Client) (method request_path : Str) (query : Option Values)
    (body : RequestBody) (x : GoError) (log : Log)
    → resolve_path c.base_url request_path ≡ err x
    → raw_request w c method request_path query body log ≡ (err x, log)
unfolding raw_request
raw_request_unresolved w c method request_path query body x log failed = rw failed refl

module _ (u : Url) (token : Str) (w : World) (c : Client) (n : ℕ) (ready : Ready w c n)
    (configured : IsConfigured u token c) (method request_path : Str) (query : Option Values)
    (body : RequestBody) where
  request_of-Carries :
      (v : Url)
      → (v.scheme ≡ c.base_url.scheme) × (v.host ≡ c.base_url.host)
      → Carries u token (request_of c method (with_query query v) body)
  unfolding request_of
  request_of-Carries v (scheme, host) = record {
    bearer = ap (λ t. codes "Bearer " ++ t) configured.bearer;
    scheme = with_query_scheme query ∙ scheme ∙ ap (λ z. z.scheme) configured.base;
    host = with_query_host query ∙ host ∙ ap (λ z. z.host) configured.base;
    agent = configured.agent;
  }
    where
      with_query_scheme : (q : Option Values) → (with_query q v).scheme ≡ v.scheme
      with_query_scheme none = refl
      with_query_scheme (some q) = refl

      with_query_host : (q : Option Values) → (with_query q v).host ≡ v.host
      with_query_host none = refl
      with_query_host (some q) = refl

  ours-IsCarried :
      (req : Request) → Carries u token req → (e : Event) → IsOurs c req e → IsCarried u token e
  ours-IsCarried req h (sent r) same = subst (Carries u token) (sym same) h
  ours-IsCarried req h (waited d) bounds = tt

  events-IsCarried :
      (log : Log)
      → (events : Log) × ((request_with_retry w c method request_path query body log).1
          ≡ events ++ log)
        × All (IsCarried u token) events
  events-IsCarried log = elim (Result-cases (resolve_path c.base_url request_path)) [
    | inl (v, found) ↦
        let left =
          request_with_retry-Sends w c n method request_path query body v log found ready.random
            ready.room ready.budget in
        let carries = request_of-Carries v (resolve_path_host c.base_url request_path v found) in
        (left.events, left.appended, All-weaken (ours-IsCarried _ carries) left.events left.ours)
    | inr (x, failed) ↦ (
      [],
      ap (λ p. p.1)
            (request_with_retry_failure w c n method request_path query body log x ready.budget
              (ap (λ p. p.0)
                (raw_request_unresolved w c method request_path query body x log failed))
              (resolve_path_failure c.base_url request_path x failed))
          ∙ ap (λ p. p.1) (raw_request_unresolved w c method request_path query body x log failed),
      tt,
    )
  ]

-- Of a client that NewClient returns with a token, for any of the package's options, every request
-- of a call, whatever its path is and whatever is answered, has the token as its bearer, goes by
-- the scheme of the base URL to its host, and has a user agent. The client is ready with a budget
-- of `n` retries.
pub new_client-request_with_retry :
    (parse_url : Str → Result Url) (go_version base_url token : Str) (settings : List Setting)
    (c : Client) (w : World) (n : ℕ) (method request_path : Str) (query : Option Values)
    (body : RequestBody) (log : Log)
    → new_client parse_url go_version base_url token (map option_of settings) ≡ ok c
    → Ready w c n
    → (u : Url) × (parse_url base_url ≡ ok u)
      × (events : Log) × ((request_with_retry w c method request_path query body log).1
          ≡ events ++ log)
      × All (IsCarried u token) events
new_client-request_with_retry parse_url go_version base_url token settings c w n method request_path
      query body log built ready =
    let (u, parsed, _, configured) =
      new_client-IsConfigured parse_url go_version base_url token settings c built in
    let (events, appended, carried) =
      events-IsCarried u token w c n ready configured method request_path query body log in
    (u, parsed, events, appended, carried)
