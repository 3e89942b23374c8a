-- ===== src/Retry/Sent.antt =====
-- What a call of `requestWithRetry` sends, with retries enabled or not.
use mathlib.Core.Path.{subst}
use firezone_go.Prelude.{
  ℕ, suc, ◌≤◌, ◌-◌, false, [], ◌∷◌, ◌++◌, Option, none, Str, ◌≡◌, refl, ap, sym, ◌∙◌, arith, All,
  Bool-cases, inl, inr,
}
use firezone_go.Prelude.Int.{pos, ◌≤ℤ◌, max_int64}
use firezone_go.Client.{Client}
use firezone_go.Errors.{Result, ok}
use firezone_go.Go.Url.{Url}
use firezone_go.Go.Values.{Values}
use firezone_go.Http.{
  Log, World, M, Request, RequestBody, sent, send, request_of, with_query, raw_request,
}
use firezone_go.Path.{resolve_path}
use firezone_go.Retry.{max_retry_wait, max_retry_jitter, request_with_retry}
use firezone_go.Retry.Run.{
  Run, success, refused, exhausted, interrupted, again, request_with_retry-Run,
}
use firezone_go.Retry.Trace.{IsOurs, sends, raw_request-Once, request_with_retry_trace}
use firezone_go.Retry.Wait.{IsRandom}

-- Only `req` is sent: at most `n + 1` times, and once at most if retries are disabled.
pub record Sends (c : Client) (req : Request) (n : ℕ) (log log' : Log) : Type 0 where
  pub events : Log
  pub appended : log' ≡ events ++ log
  pub ours : All (IsOurs c req) events
  pub bounded : sends events ≤ suc n
  pub once : c.retry_enabled ≡ false → sends events ≤ 1

-- A course of the loop sends at least once, if each of its attempts does.
sends-Run :
    (w : World) (c : Client) (once : M Str) (req : Request)
    → ((log : Log) → (once log).1 ≡ sent req ∷ log)
    → {a : ℕ} {log log' : Log} {r : Result Str} → Run w c once a log r log'
    → suc (sends log) ≤ sends log'
sends-Run w c once req one {log = log} (success done after) =
    let grown = ap sends (sym after ∙ one log) in omega arith
sends-Run w c once req one {log = log} (refused failed after other) =
    let grown = ap sends (sym after ∙ one log) in omega arith
sends-Run w c once req one {log = log} (exhausted failed after limited at_end) =
    let grown = ap sends (sym after ∙ one log) in omega arith
sends-Run w c once req one {log = log} (interrupted failed after limited more over) =
    let grown = ap sends (sym after ∙ one log) in omega arith
sends-Run w c once req one {log = log} (again d failed after limited more wait free run) =
    let grown = ap sends (sym after ∙ one log) in
    let later = sends-Run w c once req one run in omega arith

module _ (w : World) (c : Client) (n : ℕ) (method request_path : Str) (query : Option Values)
    (body : RequestBody) (u : Url) (log : Log)
    (found : resolve_path c.base_url request_path ≡ ok u) where
  raw_request-Sends :
      Sends c
        (request_of c method (with_query query u) body)
        n
        log
        (raw_request w c method request_path query body log).1
  raw_request-Sends = elim (raw_request-Once w c method request_path query body u found log) [
    | inl (x, _, unsent, _) ↦ record {
      events = [];
      appended = unsent;
      ours = tt;
      bounded = omega arith;
      once = λ e. omega arith;
    }
    | inr sent_once ↦ record {
      events = sent (request_of c method (with_query query u) body) ∷ [];
      appended = sent_once;
      ours = (refl, tt);
      bounded = omega arith;
      once = λ e. omega arith;
    }
  ]

  disabled_once :
      c.retry_enabled ≡ false
      → (request_with_retry w c method request_path query body log).1
        ≡ (raw_request w c method request_path query body log).1
  unfolding request_with_retry
  disabled_once disabled = simp disabled refl

  -- If requests can be built, an attempt sends one.
  raw_request_sent :
      ((req : Request) → w.refusal req ≡ none)
      → (past : Log)
      → (raw_request w c method request_path query body past).1
        ≡ sent (request_of c method (with_query query u) body) ∷ past
  unfolding raw_request send
  raw_request_sent accepts past = rw (found, accepts, send) refl

  -- And so does a call.
  pub sends-request_with_retry :
      c.max_retries ≡ pos n
      → ((req : Request) → w.refusal req ≡ none)
      → suc (sends log) ≤ sends (request_with_retry w c method request_path query body log).1
  sends-request_with_retry budget accepts = elim (Bool-cases c.retry_enabled) [
    | inl enabled ↦
        sends-Run w c (raw_request w c method request_path query body)
          (request_of c method (with_query query u) body) (raw_request_sent accepts)
          (request_with_retry-Run w c n method request_path query body log enabled budget)
    | inr disabled ↦
        let one = ap sends (disabled_once disabled ∙ raw_request_sent accepts log) in omega arith
  ]

  pub request_with_retry-Sends :
      ((past : Log) → IsRandom (w.random past))
      → max_retry_wait c ≤ℤ pos (max_int64 - max_retry_jitter)
      → c.max_retries ≡ pos n
      → Sends c
          (request_of c method (with_query query u) body)
          n
          log
          (request_with_retry w c method request_path query body log).1
  request_with_retry-Sends random room budget = elim (Bool-cases c.retry_enabled) [
    | inl enabled ↦
        let left =
          request_with_retry_trace w c n method request_path query body u log random room enabled
            budget found in
        record {
          events = left.events;
          appended = left.appended;
          ours = left.ours;
          bounded = omega (arith, left.bounded);
          once = λ e. cc;
        }
    | inr disabled ↦
        subst (Sends c (request_of c method (with_query query u) body) n log)
          (sym (disabled_once disabled)) raw_request-Sends
  ]
