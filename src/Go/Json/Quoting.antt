-- ===== src/Go/Json/Quoting.antt =====
-- What the scanner reads of a string that Marshal quoted.
use mathlib.Core.List.{append_assoc, append-nil}
use firezone_go.Prelude.{
  ℕ, ◌+◌, ◌*◌, ◌/◌, ◌%◌, ◌<◌, ◌≤◌, Bool, true, false, ◌||◌, List, [], ◌∷◌, ◌++◌, some, Str, ltb,
  ◌==◌, ==_iff, if◌then◌else◌, ◌≡◌, ◌≢◌, refl, ap, ◌∙◌, arith, Bool-cases, inl, inr,
}
use firezone_go.Go.Escape.{is_hex, unhex}
use firezone_go.Go.Json.Machine.{
  Frame, chars, escaped, unicode, in_string, Machine, machine, flush, utf8, is_high, is_low,
  add_unit, escape_code, step_string,
}
use firezone_go.Go.Json.Parse.{run, step_in}
use firezone_go.Go.Json.Print.{lower_hex, quote_byte, quote_bytes}

lower_hex-hex : (n : ℕ) → n < 16 → (is_hex (lower_hex n) ≡ true) × (unhex (lower_hex n) ≡ n)
unfolding lower_hex is_hex unhex
lower_hex-hex n h = ground arith

-- A string that is being read, with `acc` read so far.
abbrev pub reading : List Frame → Bool → Str → Machine
reading st key acc = machine st (in_string key chars acc 0)

plain_byte :
    (c : ℕ) (s : Str) (key : Bool) (acc : Str) (st : List Frame)
    → c ≢ b'"'
    → c ≢ b'\\'
    → 32 ≤ c
    → run (c ∷ s) (reading st key acc) ≡ run s (reading st key (acc ++ c ∷ []))
unfolding run step_in step_string flush
plain_byte c s key acc st h1 h2 h3 = ground arith

-- The bytes that are written in hexadecimal.
small_unit : (c : ℕ) (acc : Str) → c < 128 → add_unit c acc 0 ≡ (acc ++ c ∷ [], 0)
unfolding add_unit flush utf8 is_high is_low
small_unit c acc h = ground arith

pub run_step :
    (c : ℕ) (s : Str) (m m' : Machine)
    → step_in m.mode c m.stack ≡ some m'
    → run (c ∷ s) m ≡ run s m'
unfolding run
run_step c s m m' h = rw (run, h) refl

third_digit :
    (a v : ℕ) (key : Bool) (acc : Str) (st : List Frame)
    → (is_hex a ≡ true) × (unhex a ≡ v)
    → step_string key (unicode 2 0) acc 0 a st
      ≡ some (machine st (in_string key (unicode 3 v) acc 0))
unfolding step_string
third_digit a v key acc st (h, e) =
    rw (h, e) (ap (λ (n : ℕ). some (machine st (in_string key (unicode 3 n) acc 0))) (omega arith))

fourth_digit :
    (b v w c : ℕ) (key : Bool) (acc : Str) (st : List Frame)
    → (is_hex b ≡ true) × (unhex b ≡ w)
    → v * 16 + w ≡ c
    → c < 128
    → step_string key (unicode 3 v) acc 0 b st ≡ some (reading st key (acc ++ c ∷ []))
unfolding step_string
fourth_digit b v w c key acc st (h, e) sum small = rw (h, e, sum, small_unit c acc small) refl

hex_byte :
    (c a b : ℕ) (s : Str) (key : Bool) (acc : Str) (st : List Frame)
    → (is_hex a ≡ true) × (unhex a ≡ c / 16)
    → (is_hex b ≡ true) × (unhex b ≡ c % 16)
    → c < 128
    → run (b'\\' ∷ b'u' ∷ b'0' ∷ b'0' ∷ a ∷ b ∷ s) (reading st key acc)
      ≡ run s (reading st key (acc ++ c ∷ []))
unfolding step_in step_string is_hex unhex
hex_byte c a b s key acc st ha hb small =
    run_step b'\\' _ _ (machine st (in_string key escaped acc 0)) refl
    ∙ run_step b'u' _ _ (machine st (in_string key (unicode 0 0) acc 0)) refl
    ∙ run_step b'0' _ _ (machine st (in_string key (unicode 1 0) acc 0)) refl
    ∙ run_step b'0' _ _ (machine st (in_string key (unicode 2 0) acc 0)) refl
    ∙ run_step a _ _ (machine st (in_string key (unicode 3 (c / 16)) acc 0))
        (third_digit a _ key acc st ha)
    ∙ run_step b s _ _ (fourth_digit b _ _ c key acc st hb (omega arith) small)

escaped_byte :
    (c d : ℕ) (s : Str) (key : Bool) (acc : Str) (st : List Frame)
    → step_string key escaped acc 0 c st ≡ some (reading st key (acc ++ d ∷ []))
    → run (b'\\' ∷ c ∷ s) (reading st key acc) ≡ run s (reading st key (acc ++ d ∷ []))
unfolding step_in step_string
escaped_byte c d s key acc st h =
    run_step b'\\' _ _ (machine st (in_string key escaped acc 0)) refl ∙ run_step c s _ _ h

-- Every byte that has an escape of its own.
special_byte :
    (c k : ℕ) (s : Str) (key : Bool) (acc : Str) (st : List Frame)
    → (c == k) ≡ true
    → run (quote_byte k ++ s) (reading st key acc) ≡ run s (reading st key (acc ++ k ∷ []))
    → run (quote_byte c ++ s) (reading st key acc) ≡ run s (reading st key (acc ++ c ∷ []))
special_byte c k s key acc st e h = rw ((==_iff c k).0 e) h

-- A byte that has no escape of its own.
abbrev IsOrdinary : ℕ → Type 0
IsOrdinary c =
    ((c == b'"') ≡ false)
    × ((c == b'\\') ≡ false)
    × ((c == 8) ≡ false)
    × ((c == 12) ≡ false)
    × ((c == 10) ≡ false)
    × ((c == 13) ≡ false)
    × ((c == 9) ≡ false)

abbrev is_marked : ℕ → Bool
is_marked c = ltb c 32 || (c == b'<' || (c == b'>' || c == b'&'))

abbrev hex_form : ℕ → Str
hex_form c = b'\\' ∷ b'u' ∷ b'0' ∷ b'0' ∷ lower_hex (c / 16) ∷ lower_hex (c % 16) ∷ []

quote_byte_of_ordinary :
    (c : ℕ) → IsOrdinary c → quote_byte c ≡ (if is_marked c then hex_form c else c ∷ [])
unfolding quote_byte
quote_byte_of_ordinary c (e1, e2, e3, e4, e5, e6, e7) = rw (e1, e2, e3, e4, e5, e6, e7) refl

ordinary_byte :
    (c : ℕ) (s : Str) (key : Bool) (acc : Str) (st : List Frame)
    → IsOrdinary c
    → run (quote_byte c ++ s) (reading st key acc) ≡ run s (reading st key (acc ++ c ∷ []))
ordinary_byte c s key acc st h = elim (Bool-cases (is_marked c)) [
  | inl marked ↦
      let small : c < 128 = ground arith in
      rw (quote_byte_of_ordinary c h, marked)
        (hex_byte c _ _ s key acc st (lower_hex-hex (c / 16) (omega arith))
          (lower_hex-hex (c % 16) (omega arith)) small)
  | inr plain ↦
      rw (quote_byte_of_ordinary c h, plain)
        (plain_byte c s key acc st (ground arith) (ground arith) (ground arith))
]

read_byte :
    (c : ℕ) (s : Str) (key : Bool) (acc : Str) (st : List Frame)
    → run (quote_byte c ++ s) (reading st key acc) ≡ run s (reading st key (acc ++ c ∷ []))
unfolding quote_byte step_string escape_code flush
read_byte c s key acc st = elim (Bool-cases (c == b'"')) [
  | inl e ↦ special_byte c b'"' s key acc st e (escaped_byte b'"' b'"' s key acc st refl)
  | inr e1 ↦ elim (Bool-cases (c == b'\\')) [
    | inl e ↦ special_byte c b'\\' s key acc st e (escaped_byte b'\\' b'\\' s key acc st refl)
    | inr e2 ↦ elim (Bool-cases (c == 8)) [
      | inl e ↦ special_byte c 8 s key acc st e (escaped_byte b'b' 8 s key acc st refl)
      | inr e3 ↦ elim (Bool-cases (c == 12)) [
        | inl e ↦ special_byte c 12 s key acc st e (escaped_byte b'f' 12 s key acc st refl)
        | inr e4 ↦ elim (Bool-cases (c == 10)) [
          | inl e ↦ special_byte c 10 s key acc st e (escaped_byte b'n' 10 s key acc st refl)
          | inr e5 ↦ elim (Bool-cases (c == 13)) [
            | inl e ↦ special_byte c 13 s key acc st e (escaped_byte b'r' 13 s key acc st refl)
            | inr e6 ↦ elim (Bool-cases (c == 9)) [
              | inl e ↦ special_byte c 9 s key acc st e (escaped_byte b't' 9 s key acc st refl)
              | inr e7 ↦ ordinary_byte c s key acc st (e1, e2, e3, e4, e5, e6, e7)
            ]
          ]
        ]
      ]
    ]
  ]
]

-- A quoted text is read to its end.
pub run-quote_bytes :
    (t s : Str) (key : Bool) (acc : Str) (st : List Frame)
    → run (quote_bytes t ++ s) (reading st key acc) ≡ run s (reading st key (acc ++ t))
unfolding quote_bytes
run-quote_bytes [] s key acc st = rw append-nil refl
run-quote_bytes (c ∷ t) s key acc st =
    ap (λ z. run z (reading st key acc)) (append_assoc (quote_byte c) (quote_bytes t) s)
    ∙ read_byte c (quote_bytes t ++ s) key acc st
    ∙ run-quote_bytes t s key (acc ++ c ∷ []) st
    ∙ ap (λ z. run s (reading st key z)) (append_assoc acc (c ∷ []) t)
