-- ===== src/Go/Json/RoundTrip.antt =====
-- That the scanner reads back what Marshal wrote.
use mathlib.Core.List.{append_assoc, append-nil}
use firezone_go.Prelude.{
  ℕ, ◌<◌, Bool, true, false, List, [], ◌∷◌, ◌++◌, none, some, Str, codes, ◌≡◌, ◌≢◌, refl, ap, sym,
  ◌∙◌, arith, All,
}
use firezone_go.Go.Json.{
  Json, null, bool, num, str, arr, obj, Items, nil, cons, Fields, end, field, items, fields,
  item_list, field_list,
}
use firezone_go.Go.Json.Machine.{
  Frame, in_arr, in_obj, Mode, want_value, want_item, want_field, want_key, want_colon, after_value,
  complete, machine, emit, is_space, end_string, flush,
}
use firezone_go.Go.Json.Numbers.{is_number, follows, run-is_number, number_head}
use firezone_go.Go.Json.Parse.{
  run, step_in, start_value, skip_space, step_between, step_after, close_arr, close_obj, parse,
  result,
}
use firezone_go.Go.Json.Print.{
  print, print_items, print_more, print_fields, print_rest, quote, quote_bytes,
}
use firezone_go.Go.Json.Quoting.{run_step, run-quote_bytes, reading}

abbrev pub IsAscii : Str → Type 0
IsAscii = All (λ c. c < 128)

-- A value whose numbers are numbers of JSON and whose texts are ASCII.
unfoldable mutual
  pub IsText : Json → Type 0
  IsText null = Unit
  IsText (bool b) = Unit
  IsText (num s) = is_number s ≡ true
  IsText (str s) = IsAscii s
  IsText (arr xs) = AreTexts xs
  IsText (obj fs) = AreFields fs

  pub AreTexts : Items → Type 0
  AreTexts nil = Unit
  AreTexts (cons v vs) = IsText v × AreTexts vs

  pub AreFields : Fields → Type 0
  AreFields end = Unit
  AreFields (field k v fs) = IsAscii k × (IsText v × AreFields fs)

items-item_list : (vs : Items) → items (item_list vs) ≡ vs
items-item_list nil = refl
items-item_list (cons v vs) = ap (cons v) (items-item_list vs)

fields-field_list : (fs : Fields) → fields (field_list fs) ≡ fs
fields-field_list end = refl
fields-field_list (field k v fs) = ap (field k v) (fields-field_list fs)

follows-more : (vs : Items) (s : Str) → follows (print_more vs ++ s) ≡ true
unfolding print
follows-more nil s = refl
follows-more (cons v vs) s = refl

follows-rest : (fs : Fields) (s : Str) → follows (print_rest fs ++ s) ≡ true
unfolding print
follows-rest end s = refl
follows-rest (field k v fs) s = refl

closed_string :
    (t s : Str) (key : Bool) (st : List Frame)
    → run (quote t ++ s) (machine st want_value)
      ≡ run (quote_bytes t ++ (b'"' ∷ s)) (reading st false [])
unfolding quote run step_in step_between start_value skip_space is_space
closed_string t s key st =
    ap (λ z. run z (reading st false [])) (append_assoc (quote_bytes t) (b'"' ∷ []) s)

run_string :
    (t s : Str) (st : List Frame)
    → run (quote t ++ s) (machine st want_value) ≡ run s (emit (str t) st)
unfolding step_in end_string flush
run_string t s st =
    closed_string t s false st
    ∙ run-quote_bytes t (b'"' ∷ s) false [] st
    ∙ run_step b'"' s (reading st false t) (emit (str t) st) refl

-- A key, the first one of its object (`want_field`) or a later one, and the colon behind it.
run_key_from :
    (m : Mode) (t s : Str) (fs : List (Str × Json)) (k : Str) (st : List Frame)
    → run (quote t ++ b':' ∷ s) (machine (in_obj fs k ∷ st) m)
      ≡ run (quote_bytes t ++ (b'"' ∷ b':' ∷ s)) (reading (in_obj fs k ∷ st) true [])
    → run (quote t ++ b':' ∷ s) (machine (in_obj fs k ∷ st) m)
      ≡ run s (machine (in_obj fs t ∷ st) want_value)
unfolding step_in end_string flush skip_space is_space step_between
run_key_from m t s fs k st opened =
    opened
    ∙ run-quote_bytes t (b'"' ∷ b':' ∷ s) true [] (in_obj fs k ∷ st)
    ∙ run_step b'"' _ (reading (in_obj fs k ∷ st) true t) (machine (in_obj fs t ∷ st) want_colon)
        refl
    ∙ run_step b':' s _ (machine (in_obj fs t ∷ st) want_value) refl

run_first_key :
    (t s : Str) (fs : List (Str × Json)) (k : Str) (st : List Frame)
    → run (quote t ++ b':' ∷ s) (machine (in_obj fs k ∷ st) want_field)
      ≡ run s (machine (in_obj fs t ∷ st) want_value)
unfolding quote run step_in step_between skip_space is_space
run_first_key t s fs k st = run_key_from want_field t s fs k st (
    ap (λ z. run z (reading (in_obj fs k ∷ st) true []))
      (append_assoc (quote_bytes t) (b'"' ∷ []) (b':' ∷ s)))

run_next_key :
    (t s : Str) (fs : List (Str × Json)) (k : Str) (st : List Frame)
    → run (quote t ++ b':' ∷ s) (machine (in_obj fs k ∷ st) want_key)
      ≡ run s (machine (in_obj fs t ∷ st) want_value)
unfolding quote run step_in step_between skip_space is_space
run_next_key t s fs k st = run_key_from want_key t s fs k st (
    ap (λ z. run z (reading (in_obj fs k ∷ st) true []))
      (append_assoc (quote_bytes t) (b'"' ∷ []) (b':' ∷ s)))

-- No value begins with the bracket that closes an empty array.
step_in_item :
    (c : ℕ) (st : List Frame)
    → (c ≢ b']') × (is_space c ≡ false)
    → step_in want_item c st ≡ step_in want_value c st
unfolding step_in step_between skip_space
step_in_item c st (head, solid) = rw solid (ground arith)

run_first_item :
    (v : Json) (s : Str) (st : List Frame)
    → IsText v
    → run (print v ++ s) (machine st want_item) ≡ run (print v ++ s) (machine st want_value)
unfolding print run step_in step_between skip_space is_space start_value IsText quote is_number
run_first_item null s st h = refl
run_first_item (bool true) s st h = refl
run_first_item (bool false) s st h = refl
run_first_item (num []) s st h = cc
run_first_item (num (c ∷ t)) s st h = rw (run, step_in_item c st (number_head c t h)) refl
run_first_item (str t) s st h = refl
run_first_item (arr xs) s st h = refl
run_first_item (obj fs) s st h = refl

split_field :
    (k : Str) (v : Json) (rest s : Str)
    → (quote k ++ (b':' ∷ (print v ++ rest))) ++ s ≡ quote k ++ b':' ∷ (print v ++ (rest ++ s))
split_field k v rest s =
    append_assoc (quote k) (b':' ∷ (print v ++ rest)) s
    ∙ ap (λ z. quote k ++ b':' ∷ z) (append_assoc (print v) rest s)

mutual
  unfolding print quote IsText run step_in step_between skip_space is_space start_value step_after
      close_arr close_obj emit

  run_value :
      (v : Json) (s : Str) (st : List Frame)
      → IsText v
      → follows s ≡ true
      → run (print v ++ s) (machine st want_value) ≡ run s (emit v st)
  run_value null s st h f = refl
  run_value (bool true) s st h f = refl
  run_value (bool false) s st h f = refl
  run_value (num t) s st h f = run-is_number t s st h f
  run_value (str t) s st h f = run_string t s st
  run_value (arr xs) s st h f = run_items xs s st h
  run_value (obj fs) s st h f = run_fields fs s st h

  run_items :
      (vs : Items) (s : Str) (st : List Frame)
      → AreTexts vs
      → run (print_items vs ++ s) (machine (in_arr [] ∷ st) want_item) ≡ run s (emit (arr vs) st)
  run_items nil s st h = refl
  run_items (cons v vs) s st (hv, hs) =
      ap (λ z. run z (machine (in_arr [] ∷ st) want_item))
        (append_assoc (print v) (print_more vs) s)
      ∙ run_first_item v (print_more vs ++ s) (in_arr [] ∷ st) hv
      ∙ run_value v (print_more vs ++ s) (in_arr [] ∷ st) hv (follows-more vs s)
      ∙ run_more vs (v ∷ []) s st hs
      ∙ ap (λ z. run s (emit (arr (cons v z)) st)) (items-item_list vs)

  run_more :
      (vs : Items) (acc : List Json) (s : Str) (st : List Frame)
      → AreTexts vs
      → run (print_more vs ++ s) (machine (in_arr acc ∷ st) after_value)
        ≡ run s (emit (arr (items (acc ++ item_list vs))) st)
  run_more nil acc s st h = ap (λ z. run s (emit (arr (items z)) st)) (sym (append-nil acc))
  run_more (cons v vs) acc s st (hv, hs) =
      ap (λ z. run z (machine (in_arr acc ∷ st) want_value))
        (append_assoc (print v) (print_more vs) s)
      ∙ run_value v (print_more vs ++ s) (in_arr acc ∷ st) hv (follows-more vs s)
      ∙ run_more vs (acc ++ v ∷ []) s st hs
      ∙ ap (λ z. run s (emit (arr (items z)) st)) (append_assoc acc (v ∷ []) (item_list vs))

  run_fields :
      (fs : Fields) (s : Str) (st : List Frame)
      → AreFields fs
      → run (print_fields fs ++ s) (machine (in_obj [] [] ∷ st) want_field)
        ≡ run s (emit (obj fs) st)
  run_fields end s st h = refl
  run_fields (field k v fs) s st (hk, (hv, hs)) =
      ap (λ z. run z (machine (in_obj [] [] ∷ st) want_field)) (split_field k v (print_rest fs) s)
      ∙ run_first_key k (print v ++ (print_rest fs ++ s)) [] [] st
      ∙ run_value v (print_rest fs ++ s) (in_obj [] k ∷ st) hv (follows-rest fs s)
      ∙ run_rest fs ((k, v) ∷ []) s st hs
      ∙ ap (λ z. run s (emit (obj (field k v z)) st)) (fields-field_list fs)

  run_rest :
      (fs : Fields) (acc : List (Str × Json)) (s : Str) (st : List Frame)
      → AreFields fs
      → run (print_rest fs ++ s) (machine (in_obj acc [] ∷ st) after_value)
        ≡ run s (emit (obj (fields (acc ++ field_list fs))) st)
  run_rest end acc s st h = ap (λ z. run s (emit (obj (fields z)) st)) (sym (append-nil acc))
  run_rest (field k v fs) acc s st (hk, (hv, hs)) =
      ap (λ z. run z (machine (in_obj acc [] ∷ st) want_key)) (split_field k v (print_rest fs) s)
      ∙ run_next_key k (print v ++ (print_rest fs ++ s)) acc [] st
      ∙ run_value v (print_rest fs ++ s) (in_obj acc k ∷ st) hv (follows-rest fs s)
      ∙ run_rest fs (acc ++ (k, v) ∷ []) s st hs
      ∙ ap (λ z. run s (emit (obj (fields z)) st)) (append_assoc acc ((k, v) ∷ []) (field_list fs))

-- The text of an object, and what is behind it.
run_object :
    (fs : Fields) (s : Str)
    → AreFields fs
    → run (print (obj fs) ++ s) (machine [] want_value) ≡ run s (machine [] (complete (obj fs)))
unfolding print run step_in step_between skip_space is_space start_value emit
run_object fs s h = run_fields fs s [] h

-- Parsing the text that Marshal gives for an object gives the object back.
pub parse-print : (fs : Fields) → AreFields fs → parse (print (obj fs)) ≡ some (obj fs)
unfolding parse run result
parse-print fs h =
    ap (λ z. elim (run z (machine [] want_value)) [ none ↦ none | some m ↦ result m.mode m.stack ])
      (sym (append-nil (print (obj fs))))
    ∙ rw (run_object fs [] h) refl

-- The same for the text that an Encoder writes, which ends in a newline.
pub parse-print_line :
    (fs : Fields) → AreFields fs → parse (print (obj fs) ++ codes "\n") ≡ some (obj fs)
unfolding parse run step_in skip_space is_space result print
parse-print_line fs h = rw (run_object fs (codes "\n") h) refl
