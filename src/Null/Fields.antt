-- ===== src/Null/Fields.antt =====
-- What is read of an encoded struct, field by field: the fields that `omitempty` leaves out, and the
-- nullable ones of null.go.
use firezone_go.Prelude.{
  true, false, [], ◌∷◌, ◌++◌, Option, none, some, Str, str_eq, if◌then◌else◌, option_map, ◌≡◌, refl,
  ap, Bool-cases, inl, inr,
}
use firezone_go.Go.Json.{Json, null, str, obj, fields, field_list}
use firezone_go.Go.Json.Encode.{Members, omit_string, omit_nil}
use firezone_go.Null.{Null, marshal_null}

-- The value of the first member with a key.
abbrev pub look : Str → Members → Option Json
look k [] = none
look k ((j, v) ∷ ms) = if str_eq j k then some v else look k ms

-- A member with another key is passed over.
pub past_string :
    (k j s : Str) (ms : Members) → str_eq j k ≡ false → look k (omit_string j s ++ ms) ≡ look k ms
past_string k j s ms h = elim (Bool-cases (str_eq s [])) [
  | inl e ↦ rw e refl
  | inr e ↦ rw (e, h) refl
]

pub past_nil :
    {A : Type 0} (k j : Str) (enc : A → Json) (o : Option A) (ms : Members)
    → str_eq j k ≡ false
    → look k (omit_nil j enc o ++ ms) ≡ look k ms
past_nil k j enc none ms h = refl
past_nil k j enc (some a) ms h = rw h refl

pub last_nil :
    {A : Type 0} (k j : Str) (enc : A → Json) (o : Option A)
    → str_eq j k ≡ false
    → look k (omit_nil j enc o) ≡ none
last_nil k j enc none h = refl
last_nil k j enc (some a) h = rw h refl

-- How the API reads a string that is left out when it is empty.
abbrev pub stated : Str → Option Json
stated s = if str_eq s [] then none else some (str s)

pub at_string :
    (k s : Str) (ms : Members)
    → str_eq k k ≡ true
    → look k ms ≡ none
    → look k (omit_string k s ++ ms) ≡ stated s
at_string k s ms h rest = elim (Bool-cases (str_eq s [])) [
  | inl e ↦ rw e rest
  | inr e ↦ rw (e, h) refl
]

pub at_nil :
    {A : Type 0} (k : Str) (enc : A → Json) (o : Option A) (ms : Members)
    → str_eq k k ≡ true
    → look k ms ≡ none
    → look k (omit_nil k enc o ++ ms) ≡ option_map enc o
at_nil k enc none ms h rest = rest
at_nil k enc (some a) ms h rest = rw h refl

pub at_last :
    {A : Type 0} (k : Str) (enc : A → Json) (o : Option A)
    → str_eq k k ≡ true
    → look k (omit_nil k enc o) ≡ option_map enc o
at_last k enc none h = refl
at_last k enc (some a) h = rw h refl

pub field_list-fields : (ms : Members) → field_list (fields ms) ≡ ms
field_list-fields [] = refl
field_list-fields ((k, v) ∷ ms) = ap (λ l. (k, v) ∷ l) (field_list-fields ms)

-- The value of a field of an object.
abbrev pub field_of : Str → Json → Option Json
field_of k (obj fs) = look k (field_list fs)
field_of k _ = none

-- The three states of a field that may be null: left out, null, and a string.
abbrev pub three_state : Option (Null Str) → Option Json
three_state none = none
three_state (some n) = if n.valid then some (str n.value) else some null

pub three_state_lem : (o : Option (Null Str)) → option_map (marshal_null str) o ≡ three_state o
unfolding marshal_null
three_state_lem none = refl
three_state_lem (some n) = elim (Bool-cases n.valid) [ inl e ↦ rw e refl | inr e ↦ rw e refl ]
