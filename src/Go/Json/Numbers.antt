-- ===== src/Go/Json/Numbers.antt =====
-- The numbers that JSON admits, and how the scanner reads them.
use mathlib.Core.List.{append_assoc, append-nil}
use firezone_go.Prelude.{
  ℕ, Bool, true, false, ◌||◌, List, [], ◌∷◌, ◌++◌, Option, none, some, Str, ◌==◌, if◌then◌else◌,
  ◌≡◌, ◌≢◌, refl, ap, sym, ◌∙◌, arith, inl, inr, Option-cases,
}
use firezone_go.Go.Json.{Json, num}
use firezone_go.Go.Json.Machine.{
  Frame, in_arr, in_obj, Digits, minus, lead_zero, whole, point, fraction, exp, exp_sign, exponent,
  want_value, in_number, Machine, machine, emit, next_digits, may_end, is_digit, is_space,
}
use firezone_go.Go.Json.Parse.{run, step_in, start_value, skip_space}
use firezone_go.Go.Json.Quoting.{run_step}

-- The state after the first byte of a number, and after the bytes behind it.
abbrev pub first_digit : ℕ → Option Digits
first_digit c =
    if c == b'-'
    then some minus
    else if c == b'0'
    then some lead_zero
    else if is_digit c
    then some whole
    else none

unfoldable pub digits_run : Option Digits → Str → Option Digits
unfolding next_digits
digits_run none s = none
digits_run (some d) [] = some d
digits_run (some d) (c ∷ s) = digits_run (next_digits d c) s

abbrev pub ends : Option Digits → Bool
ends none = false
ends (some d) = may_end d

unfoldable pub is_number : Str → Bool
unfolding digits_run may_end is_digit
is_number [] = false
is_number (c ∷ s) = ends (digits_run (first_digit c) s)

-- The bytes that may follow a value inside a container.
abbrev pub is_delimiter : ℕ → Bool
is_delimiter c = c == b',' || (c == b']' || c == b'}')

abbrev pub follows : Str → Bool
follows [] = false
follows (c ∷ s) = is_delimiter c

next_digits_of_delimiter : (d : Digits) (c : ℕ) → is_delimiter c ≡ true → next_digits d c ≡ none
unfolding next_digits is_digit
next_digits_of_delimiter minus c h = ground arith
next_digits_of_delimiter lead_zero c h = ground arith
next_digits_of_delimiter whole c h = ground arith
next_digits_of_delimiter point c h = ground arith
next_digits_of_delimiter fraction c h = ground arith
next_digits_of_delimiter exp c h = ground arith
next_digits_of_delimiter exp_sign c h = ground arith
next_digits_of_delimiter exponent c h = ground arith

-- Behind a finished value the machine skips space.
step_in-emit :
    (v : Json) (c : ℕ) (st : List Frame)
    → step_in (emit v st).mode c (emit v st).stack ≡ skip_space (emit v st) c
unfolding step_in emit
step_in-emit v c [] = refl
step_in-emit v c (in_arr vs ∷ st) = refl
step_in-emit v c (in_obj fs k ∷ st) = refl

run_of_same :
    (c : ℕ) (s : Str) (m m' : Machine)
    → step_in m.mode c m.stack ≡ step_in m'.mode c m'.stack
    → run (c ∷ s) m ≡ run (c ∷ s) m'
unfolding run
run_of_same c s m m' h = rw (run, h) refl

number_stops :
    (d : Digits) (t : Str) (c : ℕ) (st : List Frame)
    → may_end d ≡ true
    → is_delimiter c ≡ true
    → step_in (in_number d t) c st ≡ skip_space (emit (num t) st) c
unfolding step_in
number_stops d t c st finished h = rw (step_in, next_digits_of_delimiter d c h, finished) refl

number_goes_on :
    (d d' : Digits) (t : Str) (c : ℕ) (st : List Frame)
    → next_digits d c ≡ some d'
    → step_in (in_number d t) c st ≡ some (machine st (in_number d' (t ++ c ∷ [])))
unfolding step_in
number_goes_on d d' t c st h = rw (step_in, h) refl

number_ends :
    (d : Digits) (t s : Str) (st : List Frame)
    → may_end d ≡ true
    → follows s ≡ true
    → run s (machine st (in_number d t)) ≡ run s (emit (num t) st)
number_ends d t [] st finished h = cc
number_ends d t (c ∷ s) st finished h =
    run_of_same c s _ _ (number_stops d t c st finished h ∙ sym (step_in-emit (num t) c st))

number_runs :
    (d : Digits) (u t s : Str) (st : List Frame)
    → ends (digits_run (some d) u) ≡ true
    → follows s ≡ true
    → run (u ++ s) (machine st (in_number d t)) ≡ run s (emit (num (t ++ u)) st)
unfolding digits_run
number_runs d [] t s st h f =
    number_ends d t s st h f ∙ ap (λ z. run s (emit (num z) st)) (sym (append-nil t))
number_runs d (c ∷ u) t s st h f =
    let h' : ends (digits_run (next_digits d c) u) ≡ true = h in
    elim (Option-cases (next_digits d c)) [
      | inl stuck ↦ cc (rw stuck at h')
      | inr (d', goes) ↦
          run_step c (u ++ s) _ (machine st (in_number d' (t ++ c ∷ [])))
            (number_goes_on d d' t c st goes)
          ∙ number_runs d' u (t ++ c ∷ []) s st (rw goes at h') f
          ∙ ap (λ z. run s (emit (num z) st)) (append_assoc t (c ∷ []) u)
    ]

first_digit_step :
    (c : ℕ) (d : Digits) (st : List Frame)
    → first_digit c ≡ some d
    → step_in want_value c st ≡ some (machine st (in_number d (c ∷ [])))
unfolding step_in start_value is_space is_digit
first_digit_step c d st h = ground arith

-- A number is read to its end, whatever delimiter follows.
pub run-is_number :
    (t s : Str) (st : List Frame)
    → is_number t ≡ true
    → follows s ≡ true
    → run (t ++ s) (machine st want_value) ≡ run s (emit (num t) st)
unfolding is_number digits_run
run-is_number [] s st h f = cc
run-is_number (c ∷ t) s st h f =
    let h' : ends (digits_run (first_digit c) t) ≡ true = h in
    elim (Option-cases (first_digit c)) [
      | inl stuck ↦ cc (rw stuck at h')
      | inr (d, is_d) ↦
          run_step c (t ++ s) _ (machine st (in_number d (c ∷ []))) (first_digit_step c d st is_d)
          ∙ number_runs d t (c ∷ []) s st (rw is_d at h') f
    ]

first_digit_head : (c : ℕ) (d : Digits) → first_digit c ≡ some d → (c ≢ b']') × (is_space c ≡ false)
unfolding is_digit is_space
first_digit_head c d h = ground arith

-- A number begins neither with a closing bracket nor with space.
pub number_head : (c : ℕ) (t : Str) → is_number (c ∷ t) ≡ true → (c ≢ b']') × (is_space c ≡ false)
unfolding is_number digits_run
number_head c t h =
    let h' : ends (digits_run (first_digit c) t) ≡ true = h in
    elim (Option-cases (first_digit c)) [
      | inl stuck ↦ cc (rw stuck at h')
      | inr (d, is_d) ↦ first_digit_head c d is_d
    ]
