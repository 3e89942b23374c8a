-- ===== src/Null/RoundTrip.antt =====
-- A nullable field that is encoded and decoded again.
use firezone_go.Prelude.{false, some, ◌≡◌, ◌≢◌, refl, if◌then◌else◌, Bool-cases, inl, inr}
use firezone_go.Go.Json.{Json, null, bool, num, str, arr, obj}
use firezone_go.Go.Json.Decode.{Decoder}
use firezone_go.Null.{Null, marshal_null, unmarshal_null, valid_null}

module _ {T : Type 0} (enc : T → Json) (d : Decoder T) (zero : T) where
  unmarshal_value :
      (v : Json) (m : Null T) (x : T)
      → v ≢ null
      → d v m.value ≡ some x
      → unmarshal_null d zero v m ≡ some (valid_null x)
  unfolding unmarshal_null
  unmarshal_value null m x h _ = absurd (h refl)
  unmarshal_value (bool b) m x _ h = rw h refl
  unmarshal_value (num s) m x _ h = rw h refl
  unmarshal_value (str s) m x _ h = rw h refl
  unmarshal_value (arr l) m x _ h = rw h refl
  unmarshal_value (obj f) m x _ h = rw h refl

  -- Decoding what a nullable field was encoded to, on top of any earlier field, gives the field back
  -- if it is valid and the cleared field of value zero if it is not. The encoder of its values gives
  -- no null, and their decoder undoes it.
  pub unmarshal_null-marshal_null :
      (n m : Null T)
      → enc n.value ≢ null
      → d (enc n.value) m.value ≡ some n.value
      → unmarshal_null d zero (marshal_null enc n) m
        ≡ some (if n.valid then n else record { value = zero; valid = false })
  unfolding marshal_null unmarshal_null
  unmarshal_null-marshal_null n m not_null undone = elim (Bool-cases n.valid) [
    | inl e ↦ rw e (unmarshal_value (enc n.value) m n.value not_null undone)
    | inr e ↦ rw e refl
  ]
