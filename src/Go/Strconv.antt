-- ===== src/Go/Strconv.antt =====
-- strconv.Itoa and strconv.ParseInt (base 10, 64 bits), and the `%d` of fmt.Sscanf.
pub mod Laws
use firezone_go.Prelude.{
  ℕ, zero, suc, ◌+◌, ◌-◌, ◌*◌, ◌/◌, ◌%◌, ◌^◌, Bool, true, false, ◌&&◌, ◌||◌, [], ◌∷◌, ◌++◌, Option,
  none, some, Str, codes, ltb, leb, ◌==◌, if◌then◌else◌, ◌≡◌, refl,
}
use firezone_go.Prelude.Int.{ℤ, pos, negsuc, max_int64}

-- The digits of `n`, with fuel above `n`.
unfoldable pub digits : ℕ → ℕ → Str
digits zero n = []
digits (suc f) n =
    let more = digits f (n / 10) ++ (b'0' + n % 10) ∷ [] in
    if ltb n 10 then (b'0' + n) ∷ [] else more

unfoldable pub itoa : ℤ → Str
unfolding digits
itoa (pos n) = digits (suc n) n
itoa (negsuc n) = b'-' ∷ digits (suc (suc n)) (suc n)

unfoldable pub is_decimal : ℕ → Bool
is_decimal c = leb b'0' c && leb c b'9'

-- The number that digits spell behind `n`; `none` on any other byte.
unfoldable pub read_digits : Str → ℕ → Option ℕ
unfolding is_decimal
read_digits [] n = some n
read_digits (c ∷ s) n =
    let rest = read_digits s (n * 10 + (c - b'0')) in if is_decimal c then rest else none

unfoldable pub read_nat : Str → Option ℕ
unfolding read_digits
read_nat [] = none
read_nat (c ∷ s) = read_digits (c ∷ s) 0

unfoldable pub positive : Option ℕ → Option ℤ
positive none = none
positive (some n) = if leb n max_int64 then some (pos n) else none

unfoldable pub negative : Option ℕ → Option ℤ
negative none = none
negative (some zero) = some (pos 0)
negative (some (suc n)) = if leb n max_int64 then some (negsuc n) else none

-- A value out of range is an error, as is a text with anything but digits behind the sign.
unfoldable pub parse_int : Str → Option ℤ
unfolding read_nat positive negative
parse_int [] = none
parse_int (c ∷ s) =
    if c == b'-'
    then negative (read_nat s)
    else if c == b'+'
    then positive (read_nat s)
    else positive (read_nat (c ∷ s))

unfoldable pub skip_blank : Str → Str
skip_blank [] = []
skip_blank (c ∷ s) = let rest = skip_blank s in if c == b' ' || c == 9 then rest else c ∷ s

-- The longest prefix of decimal digits.
unfoldable pub digit_run : Str → Str
unfolding is_decimal
digit_run [] = []
digit_run (c ∷ s) = let rest = c ∷ digit_run s in if is_decimal c then rest else []

unfoldable pub signed_run : Str → Str
unfolding digit_run
signed_run [] = []
signed_run (c ∷ s) = if c == b'-' || c == b'+' then c ∷ digit_run s else digit_run (c ∷ s)

-- `Sscanf s "%d"`: the number at the front of a text, what follows it being left unread.
unfoldable pub scan_int : Str → Option ℤ
unfolding parse_int skip_blank signed_run
scan_int s = parse_int (signed_run (skip_blank s))

scanned :
    (scan_int (codes " 120s") ≡ some (pos 120))
    × (scan_int (codes "1_0") ≡ some (pos 1))
    × (scan_int (codes "Wed, 21") ≡ none)
unfolding scan_int
scanned = (refl, refl, refl)

printed : (itoa (pos 100) ≡ codes "100") × (itoa (negsuc 6) ≡ codes "-7")
unfolding itoa
printed = (refl, refl)
