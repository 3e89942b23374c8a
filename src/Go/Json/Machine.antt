-- ===== src/Go/Json/Machine.antt =====
-- The states of the scanner of encoding/json, and its steps inside a string and a number.
use firezone_go.Prelude.{
  ℕ, ◌+◌, ◌-◌, ◌*◌, ◌/◌, ◌%◌, Bool, true, false, ◌||◌, ◌&&◌, List, [], ◌∷◌, ◌++◌, Option, none,
  some, Str, ltb, leb, ◌==◌, if◌then◌else◌,
}
use firezone_go.Go.Escape.{is_hex, unhex}
use firezone_go.Go.Json.{Json, str}

-- An open array with its items, or an open object with its fields and the key that waits.
pub data Frame : Type 0 where
  in_arr : List Json → Frame
  in_obj : List (Str × Json) → Str → Frame

-- Where a number stands, after the states of the scanner.
pub data Digits : Type 0 where
  minus lead_zero whole point fraction exp exp_sign exponent : Digits

-- How far a string has come: plain, behind a backslash, or `n` hexadecimal digits behind `\u`.
pub data Quoted : Type 0 where
  chars escaped : Quoted
  unicode : ℕ → ℕ → Quoted

pub data Mode : Type 0 where
  want_value want_item want_field want_key want_colon after_value : Mode
  in_number : Digits → Str → Mode
  in_literal : Str → Json → Mode
  in_string : Bool → Quoted → Str → ℕ → Mode
  complete : Json → Mode

pub record Machine : Type 0 where
  pub stack : List Frame
  pub mode : Mode

abbrev pub machine : List Frame → Mode → Machine
machine st m = record { stack = st; mode = m }

-- A value is finished: it goes into the innermost open container.
unfoldable pub emit : Json → List Frame → Machine
emit v [] = machine [] (complete v)
emit v (in_arr vs ∷ st) = machine (in_arr (vs ++ v ∷ []) ∷ st) after_value
emit v (in_obj fs k ∷ st) = machine (in_obj (fs ++ (k, v) ∷ []) [] ∷ st) after_value

-- UTF-8 of a code point.
unfoldable pub utf8 : ℕ → Str
utf8 c =
    if ltb c 128
    then c ∷ []
    else if ltb c 2048
    then (192 + c / 64) ∷ (128 + c % 64) ∷ []
    else if ltb c 65536
    then (224 + c / 4096) ∷ (128 + c / 64 % 64) ∷ (128 + c % 64) ∷ []
    else (240 + c / 262144) ∷ (128 + c / 4096 % 64) ∷ (128 + c / 64 % 64) ∷ (128 + c % 64) ∷ []

-- U+FFFD, for a first half of a surrogate pair (`hi`, 0 if there is none) with no second half.
unfoldable pub flush : Str → ℕ → Str
flush s hi = if hi == 0 then s else s ++ (239 ∷ 191 ∷ 189 ∷ [])

unfoldable pub is_high : ℕ → Bool
is_high c = leb 0xd800 c && ltb c 0xdc00

unfoldable pub is_low : ℕ → Bool
is_low c = leb 0xdc00 c && ltb c 0xe000

-- The text and the waiting half after `\u` and four digits.
unfoldable pub add_unit : ℕ → Str → ℕ → Str × ℕ
unfolding flush is_high is_low utf8
add_unit c s hi =
    if is_high c
    then (flush s hi, c)
    else if is_low c
    then if hi == 0
      then (flush s 1, 0)
      else (s ++ utf8 (65536 + (hi - 0xd800) * 1024 + (c - 0xdc00)), 0)
    else (flush s hi ++ utf8 c, 0)

-- A string is finished: a key or a value.
unfoldable pub end_string : Bool → Str → List Frame → Option Machine
unfolding emit
end_string false s st = some (emit (str s) st)
end_string true s (in_obj fs _ ∷ st) = some (machine (in_obj fs s ∷ st) want_colon)
end_string true s (in_arr _ ∷ _) = none
end_string true s [] = none

-- The byte behind a backslash, other than `u`.
unfoldable pub escape_code : ℕ → Option ℕ
escape_code c =
    if c == b'"' || (c == b'\\' || c == b'/')
    then some c
    else if c == b'b'
    then some 8
    else if c == b'f'
    then some 12
    else if c == b'n'
    then some 10
    else if c == b'r'
    then some 13
    else if c == b't'
    then some 9
    else none

unfoldable pub step_string : Bool → Quoted → Str → ℕ → ℕ → List Frame → Option Machine
unfolding add_unit end_string escape_code is_hex unhex
step_string key chars s hi c st =
    if c == b'"'
    then end_string key (flush s hi) st
    else if c == b'\\'
    then some (machine st (in_string key escaped s hi))
    else if ltb c 32
    then none
    else some (machine st (in_string key chars (flush s hi ++ c ∷ []) 0))
step_string key escaped s hi c st =
    if c == b'u'
    then some (machine st (in_string key (unicode 0 0) s hi))
    else elim (escape_code c) [
      | none ↦ none
      | some d ↦ some (machine st (in_string key chars (flush s hi ++ d ∷ []) 0))
    ]
step_string key (unicode n v) s hi c st =
    let v' = v * 16 + unhex c in
    let unit = add_unit v' s hi in
    if is_hex c
    then if n == 3
      then some (machine st (in_string key chars unit.0 unit.1))
      else some (machine st (in_string key (unicode (n + 1) v') s hi))
    else none

unfoldable pub is_space : ℕ → Bool
is_space c = c == b' ' || (c == 9 || (c == 10 || c == 13))

unfoldable pub is_digit : ℕ → Bool
is_digit c = leb b'0' c && leb c b'9'

-- The state of a number after one more byte, if the number goes on.
unfoldable pub next_digits : Digits → ℕ → Option Digits
unfolding is_digit
next_digits minus c = if c == b'0' then some lead_zero else if is_digit c then some whole else none
next_digits lead_zero c =
    if c == b'.' then some point else if c == b'e' || c == b'E' then some exp else none
next_digits whole c =
    if is_digit c
    then some whole
    else if c == b'.'
    then some point
    else if c == b'e' || c == b'E'
    then some exp
    else none
next_digits point c = if is_digit c then some fraction else none
next_digits fraction c =
    if is_digit c then some fraction else if c == b'e' || c == b'E' then some exp else none
next_digits exp c =
    if c == b'+' || c == b'-' then some exp_sign else if is_digit c then some exponent else none
next_digits exp_sign c = if is_digit c then some exponent else none
next_digits exponent c = if is_digit c then some exponent else none

-- Whether a number may end in a state.
unfoldable pub may_end : Digits → Bool
may_end lead_zero = true
may_end whole = true
may_end fraction = true
may_end exponent = true
may_end minus = false
may_end point = false
may_end exp = false
may_end exp_sign = false
