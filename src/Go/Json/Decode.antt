-- ===== src/Go/Json/Decode.antt =====
-- json.Unmarshal into Go values: what a value of each type becomes on each JSON value. A decoder is
-- given the current value, since null leaves most of them alone; `none` is a type error. A key of an
-- object is matched to a field by case folding, and of repeated keys the last one counts.
use firezone_go.Prelude.{
  ℕ, ◌-◌, Bool, true, ◌&&◌, List, [], ◌∷◌, Option, none, some, Str, codes, leb, ◌==◌, str_eq,
  if◌then◌else◌, ◌≡◌, refl,
}
use firezone_go.Prelude.Int.{ℤ}
use firezone_go.Go.Json.{
  Json, null, bool, num, str, arr, obj, Fields, end, field, item_list, field_list,
}
use firezone_go.Go.Json.Parse.{parse}
use firezone_go.Go.Strconv.{parse_int}

infixl 5 ◌>>=◌
abbrev pub ◌>>=◌ {ℓ κ} : {A : Type ℓ} {B : Type κ} → Option A → (A → Option B) → Option B
none >>= f = none
some a >>= f = f a

abbrev pub Decoder {ℓ} : Type ℓ → Type ℓ
Decoder A = Json → A → Option A

-- Case folding as far as it can make a key equal to an ASCII name: letters, and the two characters
-- U+212A and U+017F that fold to `K` and `S`.
unfoldable pub upper : ℕ → ℕ
upper c = if leb b'a' c && leb c b'z' then c - 32 else c

unfoldable pub fold_key : Str → Str
unfolding upper
fold_key [] = []
fold_key (c ∷ []) = upper c ∷ []
fold_key (c ∷ d ∷ []) = if c == 0xc5 && d == 0xbf then b'S' ∷ [] else upper c ∷ upper d ∷ []
fold_key (c ∷ d ∷ e ∷ s) =
    let kelvin = b'K' ∷ fold_key s in
    let long_s = b'S' ∷ fold_key (e ∷ s) in
    let other = upper c ∷ fold_key (d ∷ e ∷ s) in
    if c == 0xe2 && (d == 0x84 && e == 0xaa)
    then kelvin
    else if c == 0xc5 && d == 0xbf
    then long_s
    else other

unfoldable pub key_matches : Str → Str → Bool
unfolding fold_key
key_matches name key = str_eq (fold_key key) (fold_key name)

unfoldable pub dec_string : Decoder Str
dec_string (str s) a = some s
dec_string null a = some a
dec_string (bool b) a = none
dec_string (num n) a = none
dec_string (arr xs) a = none
dec_string (obj fs) a = none

-- A fraction, an exponent or a number out of range is a type error.
unfoldable pub dec_int : Decoder ℤ
unfolding parse_int
dec_int (num s) a = parse_int s
dec_int null a = some a
dec_int (bool b) a = none
dec_int (str s) a = none
dec_int (arr xs) a = none
dec_int (obj fs) a = none

unfoldable pub dec_bool : Decoder Bool
dec_bool (bool b) a = some b
dec_bool null a = some a
dec_bool (num s) a = none
dec_bool (str s) a = none
dec_bool (arr xs) a = none
dec_bool (obj fs) a = none

-- A pointer field: null makes it nil, and any other value is decoded into a new target.
unfoldable pub dec_pointer {ℓ} : {A : Type ℓ} → Decoder A → A → Decoder (Option A)
dec_pointer d zero null a = some none
dec_pointer d zero (bool b) a = do some (some (← d (bool b) zero))
dec_pointer d zero (num s) a = do some (some (← d (num s) zero))
dec_pointer d zero (str s) a = do some (some (← d (str s) zero))
dec_pointer d zero (arr xs) a = do some (some (← d (arr xs) zero))
dec_pointer d zero (obj fs) a = do some (some (← d (obj fs) zero))

unfoldable pub dec_items {ℓ} : {A : Type ℓ} → Decoder A → A → List Json → Option (List A)
dec_items d zero [] = some []
dec_items d zero (v ∷ vs) = do x ← d v zero; xs ← dec_items d zero vs; some (x ∷ xs)

-- A slice; nil and empty are not told apart.
unfoldable pub dec_list {ℓ} : {A : Type ℓ} → Decoder A → A → Decoder (List A)
unfolding dec_items
dec_list d zero (arr xs) a = dec_items d zero (item_list xs)
dec_list d zero null a = some []
dec_list d zero (bool b) a = none
dec_list d zero (num s) a = none
dec_list d zero (str s) a = none
dec_list d zero (obj fs) a = none

unfoldable pub set_entry {ℓ} : {A : Type ℓ} → Str → A → List (Str × A) → List (Str × A)
set_entry k v [] = (k, v) ∷ []
set_entry k v ((j, w) ∷ m) = if str_eq j k then (k, v) ∷ m else (j, w) ∷ set_entry k v m

unfoldable pub dec_entries {ℓ} :
    {A : Type ℓ} → Decoder A → A → List (Str × Json) → List (Str × A) → Option (List (Str × A))
unfolding set_entry
dec_entries d zero [] m = some m
dec_entries d zero ((k, v) ∷ kvs) m = do x ← d v zero; dec_entries d zero kvs (set_entry k x m)

-- A map, to which the entries of the object are added.
unfoldable pub dec_map {ℓ} : {A : Type ℓ} → Decoder A → A → Decoder (List (Str × A))
unfolding dec_entries
dec_map d zero (obj fs) m = dec_entries d zero (field_list fs) m
dec_map d zero null m = some []
dec_map d zero (bool b) m = none
dec_map d zero (num s) m = none
dec_map d zero (str s) m = none
dec_map d zero (arr xs) m = none

-- One field of a struct: every key that matches is decoded on top of what is there.
unfoldable pub get_field {ℓ} : {A : Type ℓ} → Str → Decoder A → Fields → A → Option A
unfolding key_matches
get_field name d end a = some a
get_field name d (field k v fs) a = do
  b ← if key_matches name k then d v a else some a
  get_field name d fs b

-- A struct, whose fields `f` decodes.
unfoldable pub dec_struct {ℓ} : {A : Type ℓ} → (Fields → A → Option A) → Decoder A
dec_struct f (obj fs) a = f fs a
dec_struct f null a = some a
dec_struct f (bool b) a = none
dec_struct f (num s) a = none
dec_struct f (str s) a = none
dec_struct f (arr xs) a = none

-- A `json.RawMessage` keeps the value, null too; `none` is one that was never set.
unfoldable pub dec_raw : Decoder (Option Json)
dec_raw v a = some (some v)

-- `json.Unmarshal` into a zero value; `none` is any error.
unfoldable pub unmarshal {ℓ} : {A : Type ℓ} → Decoder A → A → Str → Option A
unfolding parse
unmarshal d zero s = do v ← parse s; d v zero

folded : key_matches (codes "task_id") (codes "TASK_Id") ≡ true
unfolding key_matches
folded = refl
