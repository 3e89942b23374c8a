-- ===== src/Go/Json/Parse.antt =====
-- The syntax pass of json.Unmarshal, as the pushdown machine that encoding/json's scanner is: one
-- step for each byte, a stack of open arrays and objects, and a mode that says what may come next.
use firezone_go.Prelude.{
  ℕ, true, false, List, [], ◌∷◌, ◌++◌, Option, none, some, Str, codes, ◌==◌, if◌then◌else◌, ◌≡◌,
  refl,
}
use firezone_go.Go.Json.{Json, null, bool, num, arr, obj, nil, cons, end, field, items, fields}
use firezone_go.Go.Json.Machine.{
  Frame, in_arr, in_obj, minus, lead_zero, whole, chars, Mode, want_value, want_item, want_field,
  want_key, want_colon, after_value, in_number, in_literal, in_string, complete, Machine, machine,
  emit, step_string, is_space, is_digit, next_digits, may_end,
}

-- The first byte of a value.
unfoldable pub start_value : ℕ → List Frame → Option Machine
unfolding is_digit
start_value c st =
    if c == b'"'
    then some (machine st (in_string false chars [] 0))
    else if c == b'['
    then some (machine (in_arr [] ∷ st) want_item)
    else if c == b'{'
    then some (machine (in_obj [] [] ∷ st) want_field)
    else if c == b'n'
    then some (machine st (in_literal (codes "ull") null))
    else if c == b't'
    then some (machine st (in_literal (codes "rue") (bool true)))
    else if c == b'f'
    then some (machine st (in_literal (codes "alse") (bool false)))
    else if c == b'-'
    then some (machine st (in_number minus (c ∷ [])))
    else if c == b'0'
    then some (machine st (in_number lead_zero (c ∷ [])))
    else if is_digit c
    then some (machine st (in_number whole (c ∷ [])))
    else none

-- A byte behind a finished value inside a container.
unfoldable pub step_after : ℕ → List Frame → Option Machine
unfolding emit
step_after c (in_arr vs ∷ st) =
    if c == b','
    then some (machine (in_arr vs ∷ st) want_value)
    else if c == b']'
    then some (emit (arr (items vs)) st)
    else none
step_after c (in_obj fs k ∷ st) =
    if c == b','
    then some (machine (in_obj fs k ∷ st) want_key)
    else if c == b'}'
    then some (emit (obj (fields fs)) st)
    else none
step_after c [] = none

-- `}` closes an object that has no field yet.
unfoldable pub close_obj : List Frame → Option Machine
unfolding emit
close_obj (in_obj fs k ∷ st) = some (emit (obj (fields fs)) st)
close_obj (in_arr _ ∷ _) = none
close_obj [] = none

unfoldable pub close_arr : List Frame → Option Machine
unfolding emit
close_arr (in_arr vs ∷ st) = some (emit (arr (items vs)) st)
close_arr (in_obj _ _ ∷ _) = none
close_arr [] = none

-- The modes in which space is skipped.
unfoldable pub step_between : Mode → ℕ → List Frame → Option Machine
unfolding start_value step_after close_obj close_arr
step_between want_value c st = start_value c st
step_between want_item c st = if c == b']' then close_arr st else start_value c st
step_between want_field c st =
    if c == b'}'
    then close_obj st
    else if c == b'"'
    then some (machine st (in_string true chars [] 0))
    else none
step_between want_key c st =
    if c == b'"' then some (machine st (in_string true chars [] 0)) else none
step_between want_colon c st = if c == b':' then some (machine st want_value) else none
step_between after_value c st = step_after c st
step_between (complete v) c st = none
step_between (in_number d s) c st = none
step_between (in_literal s v) c st = none
step_between (in_string key q s hi) c st = none

unfoldable pub skip_space : Machine → ℕ → Option Machine
unfolding step_between is_space
skip_space m c = if is_space c then some m else step_between m.mode c m.stack

unfoldable pub step_in : Mode → ℕ → List Frame → Option Machine
unfolding skip_space step_string next_digits may_end
step_in (in_string key q s hi) c st = step_string key q s hi c st
step_in (in_literal [] v) c st = skip_space (emit v st) c
step_in (in_literal (d ∷ []) v) c st = if c == d then some (emit v st) else none
step_in (in_literal (d ∷ e ∷ s) v) c st =
    if c == d then some (machine st (in_literal (e ∷ s) v)) else none
step_in (in_number d s) c st = elim (next_digits d c) [
  | some d' ↦ some (machine st (in_number d' (s ++ c ∷ [])))
  | none ↦ if may_end d then skip_space (emit (num s) st) c else none
]
step_in m c st = skip_space (machine st m) c

unfoldable pub run : Str → Machine → Option Machine
unfolding step_in
run [] m = some m
run (c ∷ s) m = elim (step_in m.mode c m.stack) [ none ↦ none | some m' ↦ run s m' ]

-- The value at the end of the text, if it is complete.
unfoldable pub result : Mode → List Frame → Option Json
unfolding may_end
result (complete v) [] = some v
result (in_number d s) [] = if may_end d then some (num s) else none
result _ _ = none

abbrev start : Machine
start = machine [] want_value

-- `none` is a syntax error.
unfoldable pub parse : Str → Option Json
unfolding run result
parse s = elim (run s start) [ none ↦ none | some m ↦ result m.mode m.stack ]

sample :
    parse (codes " {\"a\": [1, -2.5e3, true], \"b\\n\\u0041\": null} ")
    ≡ some (
        obj (
          field
            (codes "a")
            (arr (cons (num (codes "1")) (cons (num (codes "-2.5e3")) (cons (bool true) nil))))
            (field (b'b' ∷ 10 ∷ b'A' ∷ []) null end)))
unfolding parse
sample = refl

syntax_errors :
    (parse (codes "{\"a\":1,}") ≡ none) × (parse (codes "01") ≡ none) × (parse (codes "[1") ≡ none)
unfolding parse
syntax_errors = (refl, refl, refl)
