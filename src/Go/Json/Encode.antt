-- ===== src/Go/Json/Encode.antt =====
-- The encoding of a struct by json.Marshal: its fields in order, less those that `omitempty` drops.
use firezone_go.Prelude.{List, [], ◌∷◌, Option, none, some, Str, str_eq, if◌then◌else◌, map}
use firezone_go.Go.Json.{Json, null, str, arr, obj, items, fields}

abbrev pub Members : Type 0
Members = List (Str × Json)

abbrev pub object : Members → Json
object ms = obj (fields ms)

abbrev pub array {ℓ} : {A : Type ℓ} → (A → Json) → List A → Json
array enc xs = arr (items (map enc xs))

-- A slice, nil being null.
abbrev pub nil_array {ℓ} : {A : Type ℓ} → (A → Json) → Option (List A) → Json
nil_array enc none = null
nil_array enc (some xs) = array enc xs

abbrev pub member : Str → Json → Members
member k v = (k, v) ∷ []

-- `omitempty` on a string, a pointer and a slice.
abbrev pub omit_string : Str → Str → Members
omit_string k s = if str_eq s [] then [] else (k, str s) ∷ []

abbrev pub omit_nil {ℓ} : {A : Type ℓ} → Str → (A → Json) → Option A → Members
omit_nil k enc none = []
omit_nil k enc (some a) = (k, enc a) ∷ []

abbrev pub omit_empty {ℓ} : {A : Type ℓ} → Str → (A → Json) → List A → Members
omit_empty k enc [] = []
omit_empty k enc (x ∷ xs) = (k, array enc (x ∷ xs)) ∷ []
