-- ===== src/Go/Json.antt =====
-- The JSON of Go's encoding/json: values, the text that `Marshal` writes and the value that the
-- decoder's syntax pass reads. A number keeps its text, which the decoder converts where a field
-- asks for an `int`. Bytes from 128 on are copied: the replacement of invalid UTF-8, the escapes of
-- U+2028 and U+2029 and the nesting limit of 10000 are left out.
pub mod Print
pub mod Machine
pub mod Parse
pub mod Decode
pub mod Encode
pub mod Quoting
pub mod Numbers
pub mod RoundTrip
pub mod Texts
pub mod Ints
use firezone_go.Prelude.{Bool, Str, List, [], ◌∷◌}

mutual
  pub data Json : Type 0 where
    null : Json
    bool : Bool → Json
    num : Str → Json
    str : Str → Json
    arr : Items → Json
    obj : Fields → Json

  pub data Items : Type 0 where
    nil : Items
    cons : Json → Items → Items

  pub data Fields : Type 0 where
    end : Fields
    field : Str → Json → Fields → Fields

abbrev pub items : List Json → Items
items [] = nil
items (v ∷ vs) = cons v (items vs)

abbrev pub fields : List (Str × Json) → Fields
fields [] = end
fields ((k, v) ∷ kvs) = field k v (fields kvs)

abbrev pub item_list : Items → List Json
item_list nil = []
item_list (cons v vs) = v ∷ item_list vs

abbrev pub field_list : Fields → List (Str × Json)
field_list end = []
field_list (field k v fs) = (k, v) ∷ field_list fs
