-- ===== src/Go/Json/Texts.antt =====
-- Which encoded structs are made of numbers of JSON and ASCII texts.
use firezone_go.Prelude.{List, [], ◌∷◌, Option, none, some, Str, str_eq, All, Bool-cases, inl, inr}
use firezone_go.Go.Json.{Json, fields}
use firezone_go.Go.Json.Encode.{
  Members, object, array, nil_array, member, omit_string, omit_nil, omit_empty,
}
use firezone_go.Go.Json.RoundTrip.{IsAscii, IsText, AreFields}

abbrev pub AreMembers : Members → Type 0
AreMembers = All (λ e. IsAscii e.0 × IsText e.1)

pub AreMembers-AreFields : (ms : Members) → AreMembers ms → AreFields (fields ms)
unfolding IsText
AreMembers-AreFields [] h = tt
AreMembers-AreFields ((k, v) ∷ ms) ((hk, hv), h) = (hk, (hv, AreMembers-AreFields ms h))

pub object-IsText : (ms : Members) → AreMembers ms → IsText (object ms)
unfolding IsText
object-IsText ms h = AreMembers-AreFields ms h

pub array-IsText :
    {A : Type 0} (enc : A → Json) (xs : List A)
    → All (λ x. IsText (enc x)) xs
    → IsText (array enc xs)
unfolding IsText
array-IsText enc [] h = tt
array-IsText enc (x ∷ xs) (hx, h) = (hx, array-IsText enc xs h)

pub member-AreMembers : (k : Str) (v : Json) → IsAscii k → IsText v → AreMembers (member k v)
member-AreMembers k v hk hv = ((hk, hv), tt)

pub omit_string-AreMembers : (k s : Str) → IsAscii k → IsAscii s → AreMembers (omit_string k s)
unfolding IsText
omit_string-AreMembers k s hk hs = elim (Bool-cases (str_eq s [])) [
  | inl e ↦ rw e tt
  | inr e ↦ rw e ((hk, hs), tt)
]

-- A predicate on what a pointer points to.
abbrev pub AllOf {ℓ} : {A : Type ℓ} → (A → Type 0) → Option A → Type 0
AllOf P none = Unit
AllOf P (some a) = P a

pub omit_nil-AreMembers :
    {A : Type 0} (k : Str) (enc : A → Json) (o : Option A)
    → IsAscii k
    → AllOf (λ a. IsText (enc a)) o
    → AreMembers (omit_nil k enc o)
omit_nil-AreMembers k enc none hk h = tt
omit_nil-AreMembers k enc (some a) hk h = ((hk, h), tt)

pub omit_empty-AreMembers :
    {A : Type 0} (k : Str) (enc : A → Json) (xs : List A)
    → IsAscii k
    → All (λ x. IsText (enc x)) xs
    → AreMembers (omit_empty k enc xs)
unfolding IsText
omit_empty-AreMembers k enc [] hk h = tt
omit_empty-AreMembers k enc (x ∷ xs) hk h = ((hk, array-IsText enc (x ∷ xs) h), tt)

pub nil_array-IsText :
    {A : Type 0} (enc : A → Json) (o : Option (List A))
    → AllOf (All (λ x. IsText (enc x))) o
    → IsText (nil_array enc o)
unfolding IsText
nil_array-IsText enc none h = tt
nil_array-IsText enc (some xs) h = array-IsText enc xs h
