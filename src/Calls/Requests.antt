-- ===== src/Calls/Requests.antt =====
-- The requests that a call of a service may make, whatever the API answers.
use firezone_go.Prelude.{
  ℕ, suc, ◌-◌, ◌≤◌, false, List, [], ◌∷◌, ◌++◌, Option, none, some, Str, codes, ◌≡◌, ◌≢◌, refl, ap,
  ◌∙◌, arith, All, IsBytes,
}
use firezone_go.Prelude.Int.{pos, ◌≤ℤ◌, max_int64}
use firezone_go.Calls.{check, ◌>>◌, do_into, do_only, do_list}
use firezone_go.Calls.Laws.{do_into_log, do_only_log, do_list_log}
use firezone_go.Client.{Client}
use firezone_go.Errors.{GoError, Result, ok, err}
use firezone_go.Go.Json.Decode.{Decoder}
use firezone_go.Go.Strings.{trim_suffix}
use firezone_go.Go.Url.{Url, escaped_path}
use firezone_go.Go.Values.{Values}
use firezone_go.Http.{
  Log, World, M, RequestBody, ◌>>=◌, lift, pure, then_with, request_of, with_query,
}
use firezone_go.Path.{build_path, resolve_path}
use firezone_go.Path.Resolve.{resolve_path-build_path}
use firezone_go.Path.Segments.{segments_of, segments_of-build_path}
use firezone_go.Retry.{max_retry_wait, max_retry_jitter, request_with_retry}
use firezone_go.Retry.Sent.{request_with_retry-Sends}
use firezone_go.Retry.Trace.{IsOurs, sends}
use firezone_go.Retry.Wait.{IsRandom}

-- A client with a budget of `n` retries, enabled or not, and a base URL of bytes, in a world of random
-- numbers in their range; its cap leaves room for the jitter in an int64.
pub record Ready (w : World) (c : Client) (n : ℕ) : Type 0 where
  pub base_bytes : IsBytes c.base_url.path
  pub random : (past : Log) → IsRandom (w.random past)
  pub room : max_retry_wait c ≤ℤ pos (max_int64 - max_retry_jitter)
  pub budget : c.max_retries ≡ pos n

-- What is added to the log is at most `n + 1` times one request, of a method, a query and a body, and
-- waits within the client's bounds; the request is there once at most if retries are disabled. Its URL
-- is what the base resolves a path to that the server reads as the segments: the path behind the
-- base's, without a final slash, and all else the base's, but for the query if there is one.
pub record Asks (c : Client) (n : ℕ) (method : Str) (segments : List Str) (query : Option Values)
    (body : RequestBody) (log log' : Log) : Type 0 where
  pub url : Url
  pub built : Str
  pub resolved : resolve_path c.base_url built ≡ ok url
  pub path : escaped_path url ≡ trim_suffix (escaped_path c.base_url) (codes "/") ++ b'/' ∷ built
  pub reads : segments_of built ≡ some segments
  pub events : Log
  pub appended : log' ≡ events ++ log
  pub ours : All (IsOurs c (request_of c method (with_query query url) body)) events
  pub bounded : sends events ≤ suc n
  pub once : c.retry_enabled ≡ false → sends events ≤ 1

-- A path that is built from segments of bytes, of which there is one at least.
pub record IsPath (path : Str) (segments : List Str) : Type 0 where
  pub built : path ≡ build_path segments
  pub some_segment : segments ≢ []
  pub bytes : All IsBytes segments

module _ (w : World) (c : Client) (n : ℕ) (ready : Ready w c n) (method path : Str)
    (segments : List Str) (target : IsPath path segments) (query : Option Values) where
  request_with_retry-Asks :
      (body : RequestBody) (log : Log)
      → Asks c n method segments query body log
          (request_with_retry w c method path query body log).1
  request_with_retry-Asks body log =
      let (prefix, u, found, _, _, sends_path, _) =
        resolve_path-build_path c.base_url segments ready.base_bytes target.bytes in
      let left =
        request_with_retry-Sends w c n method path query body u log
          (ap (resolve_path c.base_url) target.built ∙ found) ready.random ready.room
          ready.budget in
      record {
        url = u;
        built = build_path segments;
        resolved = found;
        path = sends_path;
        reads = segments_of-build_path segments target.some_segment target.bytes;
        events = left.events;
        appended = left.appended;
        ours = left.ours;
        bounded = left.bounded;
        once = left.once;
      }

  -- No request at all.
  nothing-Asks : (body : RequestBody) (log : Log) → Asks c n method segments query body log log
  nothing-Asks body log =
      let (prefix, u, found, _, _, sends_path, _) =
        resolve_path-build_path c.base_url segments ready.base_bytes target.bytes in
      record {
        url = u;
        built = build_path segments;
        resolved = found;
        path = sends_path;
        reads = segments_of-build_path segments target.some_segment target.bytes;
        events = [];
        appended = refl;
        ours = tt;
        bounded = omega arith;
        once = λ e. omega arith;
      }

  pub check-Asks :
      {B : Type 0} (o : Option GoError) (k : M B) (body : RequestBody) (log : Log)
      → Asks c n method segments query body log (k log).1
      → Asks c n method segments query body log ((check o >> k) log).1
  check-Asks none k body log h = h
  check-Asks (some e) k body log h = nothing-Asks body log

  do_into-Asks :
      {A : Type 0} (body : RequestBody) (d : Decoder A) (zero : A) (log : Log)
      → Asks c n method segments query body log (do_into w c method path query body d zero log).1
  do_into-Asks body d zero log =
      rw (do_into_log w c method path query body d zero log) (request_with_retry-Asks body log)

  do_only-Asks :
      (body : RequestBody) (log : Log)
      → Asks c n method segments query body log (do_only w c method path query body log).1
  do_only-Asks body log =
      rw (do_only_log w c method path query body log) (request_with_retry-Asks body log)

  pub checked_into :
      {A : Type 0} (o : Option GoError) (body : RequestBody) (d : Decoder A) (zero : A) (log : Log)
      → Asks c n method segments query body log
          ((check o >> do_into w c method path query body d zero) log).1
  checked_into o body d zero log =
      check-Asks o (do_into w c method path query body d zero) body log
        (do_into-Asks body d zero log)

  pub checked_only :
      (o : Option GoError) (body : RequestBody) (log : Log)
      → Asks c n method segments query body log
          ((check o >> do_only w c method path query body) log).1
  checked_only o body log =
      check-Asks o (do_only w c method path query body) body log (do_only-Asks body log)

then_pure-log :
    {A B : Type 0} (f : A → B) (r : Result A) (log : Log)
    → (then_with (λ a. pure (f a)) r log).1 ≡ log
then_pure-log f (ok a) log = refl
then_pure-log f (err e) log = refl

-- A result that is changed after a call.
mapped-Asks :
    {A B : Type 0} {c : Client} {n : ℕ} {method : Str} {segments : List Str} {query : Option Values}
    {body : RequestBody} (m : M A) (f : A → B) (log : Log)
    → Asks c n method segments query body log (m log).1
    → Asks c n method segments query body log ((m >>= λ a. pure (f a)) log).1
mapped-Asks {A} {B} {c} {n} {method} {segments} {query} {body} m f log h =
    rw (then_pure-log f (m log).0 (m log).1) h

-- The body that is sent, if the value is encoded.
abbrev pub sent_body : Result RequestBody → RequestBody
sent_body (ok b) = b
sent_body (err e) = none

module _ (w : World) (c : Client) (n : ℕ) (ready : Ready w c n) (method path : Str)
    (segments : List Str) (target : IsPath path segments) where
  pub wrapped-Asks :
      {A : Type 0} (r : Result RequestBody) (d : Decoder A) (zero : A) (log : Log)
      → Asks c n method segments none
          (sent_body r)
          log
          ((lift r >>= λ body. do_into w c method path none body d zero) log).1
  wrapped-Asks (ok b) d zero log =
      do_into-Asks w c n ready method path segments target none b d zero log
  wrapped-Asks (err e) d zero log =
      nothing-Asks w c n ready method path segments target none none log

  pub checked_wrapped :
      {A : Type 0} (o : Option GoError) (r : Result RequestBody) (d : Decoder A) (zero : A)
      (log : Log)
      → Asks c n method segments none
          (sent_body r)
          log
          ((check o >> (lift r >>= λ body. do_into w c method path none body d zero)) log).1
  checked_wrapped o r d zero log =
      check-Asks w c n ready method path segments target none o
        (lift r >>= λ body. do_into w c method path none body d zero) (sent_body r) log
        (wrapped-Asks r d zero log)

  pub wrapped_mapped-Asks :
      {A B : Type 0} (r : Result RequestBody) (d : Decoder A) (zero : A) (f : A → B) (log : Log)
      → Asks c n method segments none
          (sent_body r)
          log
          ((lift r >>= λ body. do_into w c method path none body d zero >>= λ a. pure (f a)) log).1
  wrapped_mapped-Asks (ok b) d zero f log =
      mapped-Asks (do_into w c method path none b d zero) f log
        (do_into-Asks w c n ready method path segments target none b d zero log)
  wrapped_mapped-Asks (err e) d zero f log =
      nothing-Asks w c n ready method path segments target none none log

module _ (w : World) (c : Client) (n : ℕ) (ready : Ready w c n) (path : Str) (segments : List Str)
    (target : IsPath path segments) where
  pub do_list-Asks :
      {T : Type 0} (q : Values) (d : Decoder T) (zero : T) (log : Log)
      → Asks c n
          (codes "GET")
          segments
          (some q)
          none
          log
          (do_list w c (codes "GET") path q d zero log).1
  do_list-Asks q d zero log =
      rw (do_list_log w c (codes "GET") path q d zero log)
        (request_with_retry-Asks w c n ready (codes "GET") path segments target (some q) none log)
