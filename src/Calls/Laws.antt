-- ===== src/Calls/Laws.antt =====
-- What the calls do to the log, and when they end before a request is made.
use firezone_go.Prelude.{true, Option, none, some, Str, codes, ◌≡◌, refl, inl, inr, [], ◌∷◌}
use firezone_go.Calls.{check, ◌>>◌, do_into, do_only, do_list, decode_data}
use firezone_go.Calls.Envelope.{decode_page}
use firezone_go.Client.{Client}
use firezone_go.Errors.{
  GoError, Result, ok, err, Result-cases, is_error, err_nil_request, sentinel, errorf_w,
}
use firezone_go.Go.Json.Decode.{Decoder}
use firezone_go.Go.Values.{Values}
use firezone_go.Http.{World, M, Log, RequestBody, ◌>>=◌, lift}
use firezone_go.Retry.{request_with_retry}

-- A refused argument ends the call: nothing is sent.
check-refused :
    {B : Type 0} (o : Option GoError) (k : M B) (log : Log) (e : GoError)
    → o ≡ some e
    → (check o >> k) log ≡ (err e, log)
check-refused o k log e h = rw h refl

pub check-accepted :
    {B : Type 0} (o : Option GoError) (k : M B) (log : Log) → o ≡ none → (check o >> k) log ≡ k log
check-accepted o k log h = rw h refl

abbrev pub nil_request : Str → GoError
nil_request key = errorf_w (codes "firezone: %s %w") (key ∷ []) (sentinel err_nil_request)

pub nil_request_lem : (key : Str) → is_error (nil_request key) err_nil_request ≡ true
unfolding is_error
nil_request_lem key = refl

pub lift_ok :
    {A B : Type 0} (r : Result A) (a : A) (k : A → M B) (log : Log)
    → r ≡ ok a
    → (lift r >>= k) log ≡ k a log
lift_ok r a k log h = rw h refl

then_lift :
    {A B : Type 0} (m : M A) (f : A → Result B) (log : Log)
    → ((m >>= λ a. lift (f a)) log).1 ≡ (m log).1
then_lift m f log = elim (Result-cases (m log).0) [
  | inl (a, done) ↦ rw done refl
  | inr (e, failed) ↦ rw failed refl
]

-- Decoding the response adds nothing to the log.
pub do_into_log :
    (w : World) (c : Client) {A : Type 0} (method request_path : Str) (query : Option Values)
    (body : RequestBody) (d : Decoder A) (zero : A) (log : Log)
    → (do_into w c method request_path query body d zero log).1
      ≡ (request_with_retry w c method request_path query body log).1
unfolding do_into
do_into_log w c method request_path query body d zero log =
    then_lift (request_with_retry w c method request_path query body) (decode_data d zero) log

pub do_only_log :
    (w : World) (c : Client) (method request_path : Str) (query : Option Values)
    (body : RequestBody) (log : Log)
    → (do_only w c method request_path query body log).1
      ≡ (request_with_retry w c method request_path query body log).1
unfolding do_only
do_only_log w c method request_path query body log =
    then_lift (request_with_retry w c method request_path query body) (λ s. ok tt) log

pub do_list_log :
    (w : World) (c : Client) {T : Type 0} (method request_path : Str) (query : Values)
    (d : Decoder T) (zero : T) (log : Log)
    → (do_list w c method request_path query d zero log).1
      ≡ (request_with_retry w c method request_path (some query) none log).1
unfolding do_list
do_list_log w c method request_path query d zero log =
    then_lift (request_with_retry w c method request_path (some query) none) (decode_page d zero)
      log
