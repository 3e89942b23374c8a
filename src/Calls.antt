-- ===== src/Calls.antt =====
-- The calls that every service makes: `wrapBody`, `do` and `doList` of firezone.go.
pub mod Envelope
pub mod Laws
pub mod Pages
pub mod Requests
pub mod Sent
pub mod Served
use firezone_go.Calls.Envelope.{decode_page}
use firezone_go.Prelude.{
  Bool, true, false, List, [], ◌∷◌, Option, none, some, Str, codes, str_eq, if◌then◌else◌,
}
use firezone_go.Client.{Client}
use firezone_go.Errors.{GoError, sentinel, err_nil_request, errorf_w, external, Result, ok, err}
use firezone_go.Go.Json.{Json, obj, end, field}
use firezone_go.Go.Json.Decode.{Decoder, dec_struct, dec_raw, get_field, unmarshal}
use firezone_go.Go.Json.Print.{print}
use firezone_go.Go.Values.{Values}
use firezone_go.Http.{World, M, RequestBody, ◌>>=◌, fail, pure, lift}
use firezone_go.Query.{Page}
use firezone_go.Retry.{request_with_retry}

-- `if err := check; err != nil { return err }`
abbrev pub check : Option GoError → M (Unit {0})
check none = pure tt
check (some e) = fail e

infixl 5 ◌>>◌
abbrev pub ◌>>◌ : {B : Type 0} → M (Unit {0}) → M B → M B
m >> k = m >>= λ _. k

-- The argument `v`, `none` being a nil pointer. The types that are encoded never fail to encode.
unfoldable pub wrap_body : Str → Option Json → Result RequestBody
wrap_body key none = err (errorf_w (codes "firezone: %s %w") (key ∷ []) (sentinel err_nil_request))
wrap_body key (some v) = ok (some (print (obj (field key v end))))

-- `dataEnvelope[json.RawMessage]`: the value of "data", if there is one.
unfoldable pub data_envelope : Str → Option (Option Json)
unfolding unmarshal dec_struct get_field dec_raw
data_envelope = unmarshal (dec_struct (get_field (codes "data") dec_raw)) none

abbrev decoding : Str → GoError
decoding what = errorf_w what [] (external (codes "json"))

abbrev pub decode_into : {A : Type 0} → Decoder A → A → Option Json → Result A
decode_into d zero none = err (decoding (codes "firezone: decoding response data: %w"))
decode_into d zero (some v) = elim (d v zero) [
  | none ↦ err (decoding (codes "firezone: decoding response data: %w"))
  | some a ↦ ok a
]

-- An empty body leaves the result at its zero value.
unfoldable pub decode_data : {A : Type 0} → Decoder A → A → Str → Result A
unfolding data_envelope
decode_data d zero body = if str_eq body [] then ok zero else elim (data_envelope body) [
  | none ↦ err (decoding (codes "firezone: decoding response: %w"))
  | some data_value ↦ decode_into d zero data_value
]

-- A nil pointer to a struct of options is replaced by the zero struct.
abbrev pub or_zero : {A : Type 0} → A → Option A → A
or_zero zero none = zero
or_zero zero (some a) = a

module _ (w : World) (c : Client) where
  -- `do` with a target for the response.
  unfoldable pub do_into :
      {A : Type 0} → Str → Str → Option Values → RequestBody → Decoder A → A → M A
  do_into method request_path query body d zero = do
    resp ← request_with_retry w c method request_path query body
    lift (decode_data d zero resp)

  -- `do` with a nil target.
  unfoldable pub do_only : Str → Str → Option Values → RequestBody → M (Unit {0})
  do_only method request_path query body = do
    resp ← request_with_retry w c method request_path query body
    pure tt

  unfoldable pub do_list : {T : Type 0} → Str → Str → Values → Decoder T → T → M (Page T)
  do_list method request_path query d zero = do
    resp ← request_with_retry w c method request_path (some query) none
    lift (decode_page d zero resp)
