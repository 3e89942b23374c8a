-- ===== src/Calls/Sent.antt =====
-- That a call of a service whose arguments are accepted sends its request.
use firezone_go.Prelude.{ℕ, suc, ◌≤◌, List, Option, none, Str, ◌≡◌, ap, ◌∙◌, arith}
use firezone_go.Calls.{check, ◌>>◌, do_into}
use firezone_go.Calls.Laws.{check-accepted, lift_ok, do_into_log}
use firezone_go.Calls.Requests.{Ready, IsPath}
use firezone_go.Client.{Client}
use firezone_go.Errors.{GoError, Result, ok}
use firezone_go.Go.Json.Decode.{Decoder}
use firezone_go.Http.{Log, World, M, Request, RequestBody, ◌>>=◌, lift}
use firezone_go.Path.{resolve_path}
use firezone_go.Path.Resolve.{resolve_path-build_path}
use firezone_go.Retry.Sent.{sends-request_with_retry}
use firezone_go.Retry.Trace.{sends}

module _ (w : World) (c : Client) (n : ℕ) (ready : Ready w c n) (method path : Str)
    (segments : List Str) (target : IsPath path segments)
    (accepts : (req : Request) → w.refusal req ≡ none) where
  sends-do_into :
      {A : Type 0} (body : RequestBody) (d : Decoder A) (zero : A) (log : Log)
      → suc (sends log) ≤ sends (do_into w c method path none body d zero log).1
  sends-do_into body d zero log =
      let (prefix, u, found, _, _, _, _) =
        resolve_path-build_path c.base_url segments ready.base_bytes target.bytes in
      let one =
        sends-request_with_retry w c n method path none body u log
          (ap (resolve_path c.base_url) target.built ∙ found) ready.budget accepts in
      let same = ap sends (do_into_log w c method path none body d zero log) in omega arith

  pub checked_wrapped_sends :
      {A : Type 0} (o : Option GoError) (r : Result RequestBody) (body : RequestBody)
      (d : Decoder A) (zero : A) (log : Log)
      → o ≡ none
      → r ≡ ok body
      → suc (sends log)
        ≤ sends ((check o >> (lift r >>= λ b. do_into w c method path none b d zero)) log).1
  checked_wrapped_sends {A} o r body d zero log accepted wrapped =
      let call : RequestBody → M A = λ b. do_into w c method path none b d zero in
      let same =
        ap (λ x. sends x.1)
          (check-accepted o (lift r >>= call) log accepted ∙ lift_ok r body call log wrapped) in
      let one = sends-do_into body d zero log in omega arith
