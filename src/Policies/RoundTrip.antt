-- ===== src/Policies/RoundTrip.antt =====
-- That the conditions of a Policy are decoded as they are encoded.
use firezone_go.Prelude.{List, [], ◌∷◌, Option, none, some, Str, codes, ◌≡◌, refl, map, All, arith}
use firezone_go.Go.Json.{str, obj, end, field, items, item_list}
use firezone_go.Go.Json.Decode.{
  dec_string, dec_items, dec_list, dec_pointer, dec_struct, get_field, key_matches, unmarshal,
}
use firezone_go.Go.Json.Encode.{array, nil_array}
use firezone_go.Go.Json.Print.{print}
use firezone_go.Go.Json.RoundTrip.{IsAscii, IsText}
use firezone_go.Go.Json.Texts.{AllOf, array-IsText, nil_array-IsText}
use firezone_go.Calls.Served.{unmarshal-print}
use firezone_go.Policies.Types.{
  Condition, zero_condition, condition_fields, condition_json, zero_policy, policy_fields,
}

-- A condition with texts of ASCII only.
pub record IsAsciiCondition (c : Condition) : Type 0 where
  pub property : IsAscii c.property
  pub operator : IsAscii c.operator
  pub values : AllOf (All IsAscii) c.values

dec_texts : (xs : List Str) → dec_items dec_string [] (item_list (items (map str xs))) ≡ some xs
unfolding dec_items dec_string
dec_texts [] = refl
dec_texts (x ∷ xs) = rw (dec_texts xs) refl

dec_values :
    (o : Option (List Str))
    → dec_pointer (dec_list dec_string []) [] (nil_array str o) none ≡ some o
unfolding dec_pointer dec_list
dec_values none = refl
dec_values (some xs) = rw (dec_texts xs) refl

dec_condition :
    (c : Condition) → dec_struct condition_fields (condition_json c) zero_condition ≡ some c
unfolding condition_json condition_fields dec_struct get_field key_matches dec_string
dec_condition c = rw (dec_values c.values) refl

dec_conditions :
    (cs : List Condition)
    → dec_items
        (dec_struct condition_fields)
        zero_condition
        (item_list (items (map condition_json cs)))
      ≡ some cs
unfolding dec_items
dec_conditions [] = refl
dec_conditions (c ∷ cs) = rw (dec_condition c, dec_conditions cs) refl

condition-IsText : (c : Condition) → IsAsciiCondition c → IsText (condition_json c)
unfolding condition_json IsText
condition-IsText c h = (
  ground arith,
  (
    h.property,
    (ground arith, (h.operator, (ground arith, (nil_array-IsText str c.values h.values, tt)))),
  ),
)

pub conditions-All :
    (cs : List Condition) → All IsAsciiCondition cs → All (λ c. IsText (condition_json c)) cs
conditions-All [] h = tt
conditions-All (c ∷ cs) (h, hs) = (condition-IsText c h, conditions-All cs hs)

-- Decoding a Policy from the text of an object with conditions alone, written as the requests
-- write them, gives these conditions back, in order and with nil and empty values told apart, and
-- leaves all else at its zero value. Their texts are ASCII.
pub conditions_round_trip :
    (cs : List Condition)
    → All IsAsciiCondition cs
    → unmarshal
        (dec_struct policy_fields)
        zero_policy
        (print (obj (field (codes "conditions") (array condition_json cs) end)))
      ≡ some (record zero_policy { conditions = cs })
unfolding policy_fields dec_struct get_field key_matches dec_list IsText
conditions_round_trip cs h =
    unmarshal-print (dec_struct policy_fields) zero_policy _
      (field (codes "conditions") (array condition_json cs) end)
      (ground arith, (array-IsText condition_json cs (conditions-All cs h), tt))
      (rw (dec_conditions cs) refl)
