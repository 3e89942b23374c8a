-- ===== src/Null.antt =====
-- null.go: a nullable field of an update request. The field has type `Option (Null T)`: `none`
-- leaves it out, `clear` sends null and `set v` sends a value.
pub mod Fields
pub mod RoundTrip
pub mod Texts
use firezone_go.Prelude.{Bool, true, false, Option, none, some, if◌then◌else◌}
use firezone_go.Go.Json.{Json, null, bool, num, str, arr, obj}
use firezone_go.Go.Json.Decode.{◌>>=◌, Decoder}

pub record Null {ℓ} (T : Type ℓ) : Type ℓ where
  pub value : T
  pub valid : Bool

unfoldable pub set {ℓ} : {T : Type ℓ} → T → Option (Null T)
set v = some (record { value = v; valid = true })

-- `zero` is the zero value of the type.
unfoldable pub clear {ℓ} : {T : Type ℓ} → T → Option (Null T)
clear zero = some (record { value = zero; valid = false })

-- `MarshalJSON`
unfoldable pub marshal_null {ℓ} : {T : Type ℓ} → (T → Json) → Null T → Json
marshal_null enc n = if n.valid then enc n.value else null

abbrev pub valid_null {ℓ} : {T : Type ℓ} → T → Null T
valid_null v = record { value = v; valid = true }

-- `UnmarshalJSON`: a null gives the zero value, anything else is decoded into the old one.
unfoldable pub unmarshal_null {ℓ} : {T : Type ℓ} → Decoder T → T → Decoder (Null T)
unmarshal_null d zero null n = some (record { value = zero; valid = false })
unmarshal_null d zero (bool b) n = do some (valid_null (← d (bool b) n.value))
unmarshal_null d zero (num s) n = do some (valid_null (← d (num s) n.value))
unmarshal_null d zero (str s) n = do some (valid_null (← d (str s) n.value))
unmarshal_null d zero (arr xs) n = do some (valid_null (← d (arr xs) n.value))
unmarshal_null d zero (obj fs) n = do some (valid_null (← d (obj fs) n.value))
