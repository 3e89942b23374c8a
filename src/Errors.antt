-- ===== src/Errors.antt =====
-- errors.go, and the sentinel errors of path.go and firezone.go: the errors that the client returns,
-- `errors.Is` and `errors.As` on them, the parsing of an error response and the text of an APIError.
pub mod Api
pub mod Message
pub mod RetryAfter
use firezone_go.Prelude.{
  ℕ, Bool, true, false, ◌&&◌, List, [], ◌∷◌, Option, none, some, Str, ◌==◌, ◌≡◌, ◌⊎◌, inl, inr,
  refl, if◌then◌else◌,
}
use firezone_go.Prelude.Int.{ℤ}

-- `ValidationErrors` is a map, kept as its entries in the order in which a loop visits them.
pub record ApiError : Type 0 where
  pub status_code : ℕ
  pub kind : Str
  pub title : Str
  pub detail : Str
  pub validation_errors : List (Str × List Str)
  pub retry_after : ℤ

pub data Sentinel : Type 0 where
  err_missing_id err_nil_request : Sentinel

-- An `error` value. `errorf` is `fmt.Errorf` with its format and arguments, `errorf_w` one whose
-- format ends in `%w`; `external` comes from a package that the client calls.
pub data GoError : Type 0 where
  sentinel : Sentinel → GoError
  api : ApiError → GoError
  errorf : Str → List Str → GoError
  errorf_w : Str → List Str → GoError → GoError
  external : Str → GoError

-- A value and an `error`, of which one is meant.
pub data Result {ℓ} (A : Type ℓ) : Type ℓ where
  ok : A → Result A
  err : GoError → Result A

pub Result-cases {ℓ} :
    {A : Type ℓ} (r : Result A) → ((a : A) × (r ≡ ok a)) ⊎ ((e : GoError) × (r ≡ err e))
Result-cases (ok a) = inl (a, refl)
Result-cases (err e) = inr (e, refl)

abbrev pub same_sentinel : Sentinel → Sentinel → Bool
same_sentinel err_missing_id err_missing_id = true
same_sentinel err_nil_request err_nil_request = true
same_sentinel err_missing_id err_nil_request = false
same_sentinel err_nil_request err_missing_id = false

-- `errors.Is(err, target)`
unfoldable pub is_error : GoError → Sentinel → Bool
is_error (sentinel s) t = same_sentinel s t
is_error (errorf_w f args e) t = is_error e t
is_error (api e) t = false
is_error (errorf f args) t = false
is_error (external s) t = false

-- `errors.As(err, &apiErr)`
unfoldable pub as_api_error : GoError → Option ApiError
as_api_error (api e) = some e
as_api_error (errorf_w f args e) = as_api_error e
as_api_error (sentinel s) = none
as_api_error (errorf f args) = none
as_api_error (external s) = none

unfoldable pub has_status : GoError → ℕ → Bool
unfolding as_api_error
has_status e status = elim (as_api_error e) [ none ↦ false | some a ↦ a.status_code == status ]

unfoldable pub is_not_found : GoError → Bool
unfolding has_status
is_not_found e = has_status e 404

unfoldable pub is_conflict : GoError → Bool
unfolding has_status
is_conflict e = has_status e 409

unfoldable pub is_validation : GoError → Bool
unfolding has_status
is_validation e = has_status e 422

unfoldable pub is_rate_limited : GoError → Bool
unfolding has_status
is_rate_limited e = has_status e 429

unfoldable pub is_forbidden : GoError → Bool
unfolding has_status
is_forbidden e = has_status e 403

unfoldable pub is_unauthorized : GoError → Bool
unfolding has_status
is_unauthorized e = has_status e 401
