-- ===== src/Go/Json/Ints.antt =====
-- A printed integer is a number of JSON, and decodes to itself.
use firezone_go.Prelude.{
  ℕ, zero, suc, ◌+◌, ◌/◌, ◌%◌, ◌<◌, ◌≤◌, true, [], ◌∷◌, ◌++◌, some, Str, ltb, ◌≡◌, refl, arith,
  Bool-cases, inl, inr, All-append,
}
use firezone_go.Prelude.Int.{ℤ, pos, max_int64}
use firezone_go.Go.Json.{num}
use firezone_go.Go.Json.Decode.{dec_int}
use firezone_go.Go.Json.Machine.{whole, next_digits, may_end, is_digit}
use firezone_go.Go.Json.Numbers.{digits_run, first_digit, is_number}
use firezone_go.Go.Strconv.{digits, itoa, is_decimal}
use firezone_go.Go.Strconv.Laws.{IsDecimal, parse_int-itoa}

whole_goes_on : (c : ℕ) → is_decimal c ≡ true → next_digits whole c ≡ some whole
unfolding next_digits is_digit is_decimal
whole_goes_on c h = ground arith

whole_runs : (s : Str) → IsDecimal s → digits_run (some whole) s ≡ some whole
unfolding digits_run
whole_runs [] h = refl
whole_runs (c ∷ s) (hc, h) = rw (digits_run, whole_goes_on c hc) (whole_runs s h)

-- A positive number is printed with a first digit other than 0.
abbrev IsPositive : Str → Type 0
IsPositive s = (c : ℕ) × (t : Str) × (s ≡ c ∷ t) × (first_digit c ≡ some whole) × IsDecimal t

digits-IsPositive : (f n : ℕ) → n < f → 1 ≤ n → IsPositive (digits f n)
unfolding digits is_digit is_decimal
digits-IsPositive zero n h p = absurd (omega arith)
digits-IsPositive (suc f) n h p = elim (Bool-cases (ltb n 10)) [
  | inl small ↦ rw small (b'0' + n, [], refl, ground arith, tt)
  | inr large ↦
      let (c, t, same, first, rest) = digits-IsPositive f (n / 10) (ground arith) (ground arith) in
      rw (large, same)
        (c, t ++ (b'0' + n % 10) ∷ [], refl, first, All-append _ t _ rest (ground arith, tt))
]

pub itoa-is_number : (n : ℕ) → is_number (itoa (pos n)) ≡ true
unfolding itoa is_number may_end
itoa-is_number zero = refl
itoa-is_number (suc n) =
    let (c, t, same, first, rest) =
      digits-IsPositive (suc (suc n)) (suc n) (omega arith) (omega arith) in
    rw (same, is_number, first, whole_runs t rest) refl

-- `dec_int` reads a printed number back.
pub dec_int-itoa : (n : ℕ) (z : ℤ) → n ≤ max_int64 → dec_int (num (itoa (pos n))) z ≡ some (pos n)
unfolding dec_int
dec_int-itoa n z h = parse_int-itoa n h
