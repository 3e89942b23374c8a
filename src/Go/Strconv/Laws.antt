-- ===== src/Go/Strconv/Laws.antt =====
-- Reading a printed number gives it back.
use mathlib.Core.List.{append_assoc, append-nil, concat-ne-nil}
use firezone_go.Prelude.{
  ℕ, zero, suc, ◌+◌, ◌*◌, ◌/◌, ◌%◌, ◌<◌, ◌≤◌, true, [], ◌∷◌, ◌++◌, some, Str, ltb, ◌≡◌, ◌≢◌, refl,
  ap, sym, ◌∙◌, arith, All, All-append, Bool-cases, inl, inr,
}
use firezone_go.Prelude.Int.{pos, max_int64}
use firezone_go.Go.Strconv.{
  digits, itoa, is_decimal, read_digits, read_nat, positive, parse_int, skip_blank, digit_run,
  signed_run, scan_int,
}

read_digits-digit :
    (d n : ℕ) (s : Str) → d < 10 → read_digits ((b'0' + d) ∷ s) n ≡ read_digits s (n * 10 + d)
unfolding read_digits
read_digits-digit d n s h = ground arith

read_digits-digits : (f n : ℕ) (s : Str) → n < f → read_digits (digits f n ++ s) 0 ≡ read_digits s n
unfolding digits
read_digits-digits zero n s h = absurd (omega arith)
read_digits-digits (suc f) n s h = elim (Bool-cases (ltb n 10)) [
  | inl small ↦ rw small (read_digits-digit n 0 s (ground arith) ∙ ap (read_digits s) (omega arith))
  | inr large ↦
      let tenth : n / 10 < f = ground arith in
      let whole : n / 10 * 10 + n % 10 ≡ n = omega arith in
      rw (
        large,
        append_assoc,
        read_digits-digits f (n / 10) ((b'0' + n % 10) ∷ s) tenth,
        read_digits-digit (n % 10) (n / 10) s (omega arith),
        whole,
      )
]

read_digits_nil : (n : ℕ) → read_digits [] n ≡ some n
unfolding read_digits
read_digits_nil n = refl

positive-some : (n : ℕ) → n ≤ max_int64 → positive (some n) ≡ some (pos n)
unfolding positive
positive-some n h = ground arith

pub digits-ne-nil : (f n : ℕ) → n < f → digits f n ≢ []
unfolding digits
digits-ne-nil zero n h = absurd (omega arith)
digits-ne-nil (suc f) n h = elim (Bool-cases (ltb n 10)) [
  | inl small ↦ rw small (cc)
  | inr large ↦ rw large (concat-ne-nil (b'0' + n % 10) (digits f (n / 10)))
]

pub digits-decimal : (f n : ℕ) → All (λ c. is_decimal c ≡ true) (digits f n)
unfolding digits is_decimal
digits-decimal zero n = tt
digits-decimal (suc f) n = elim (Bool-cases (ltb n 10)) [
  | inl small ↦ rw small (ground arith, tt)
  | inr large ↦
      rw large (All-append _ (digits f (n / 10)) _ (digits-decimal f (n / 10)) (ground arith, tt))
]

abbrev pub IsDecimal : Str → Type 0
IsDecimal = All (λ c. is_decimal c ≡ true)

digit_run_of_decimal : (s : Str) → IsDecimal s → digit_run s ≡ s
unfolding digit_run
digit_run_of_decimal [] _ = refl
digit_run_of_decimal (c ∷ s) (hc, hs) = rw (hc, digit_run_of_decimal s hs)

module _ (c : ℕ) (s : Str) (h : is_decimal c ≡ true) where
  skip_blank_of_decimal : skip_blank (c ∷ s) ≡ c ∷ s
  unfolding skip_blank is_decimal
  skip_blank_of_decimal = ground arith

  signed_run_of_decimal : signed_run (c ∷ s) ≡ digit_run (c ∷ s)
  unfolding signed_run is_decimal
  signed_run_of_decimal = ground arith

  parse_int_of_decimal : parse_int (c ∷ s) ≡ positive (read_digits (c ∷ s) 0)
  unfolding parse_int is_decimal read_nat
  parse_int_of_decimal = ground arith

scan_int_of_decimal : (s : Str) → s ≢ [] → IsDecimal s → scan_int s ≡ positive (read_digits s 0)
scan_int_of_decimal [] ne _ = absurd (ne refl)
scan_int_of_decimal (c ∷ s) _ (hc, hs) =
    unfold scan_int in
    rw
      (
        skip_blank_of_decimal c s hc,
        signed_run_of_decimal c s hc,
        digit_run_of_decimal (c ∷ s) (hc, hs),
      )
      (parse_int_of_decimal c s hc)

read_digits-itoa : (n : ℕ) → read_digits (digits (suc n) n) 0 ≡ some n
read_digits-itoa n =
    ap (λ s. read_digits s 0) (sym (append-nil (digits (suc n) n)))
    ∙ read_digits-digits (suc n) n [] (omega arith)
    ∙ read_digits_nil n

-- A printed number that fits is scanned back.
pub scan_int-itoa : (n : ℕ) → n ≤ max_int64 → scan_int (itoa (pos n)) ≡ some (pos n)
unfolding itoa
scan_int-itoa n h =
    scan_int_of_decimal _ (digits-ne-nil (suc n) n (omega arith)) (digits-decimal (suc n) n)
    ∙ ap positive (read_digits-itoa n)
    ∙ positive-some n h

parse_int_of_digits : (s : Str) → s ≢ [] → IsDecimal s → parse_int s ≡ positive (read_digits s 0)
parse_int_of_digits [] ne _ = absurd (ne refl)
parse_int_of_digits (c ∷ s) _ (hc, _) = parse_int_of_decimal c s hc

-- A printed number that fits is parsed back.
pub parse_int-itoa : (n : ℕ) → n ≤ max_int64 → parse_int (itoa (pos n)) ≡ some (pos n)
unfolding itoa
parse_int-itoa n h =
    parse_int_of_digits _ (digits-ne-nil (suc n) n (omega arith)) (digits-decimal (suc n) n)
    ∙ ap positive (read_digits-itoa n)
    ∙ positive-some n h
