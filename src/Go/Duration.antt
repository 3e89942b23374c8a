-- ===== src/Go/Duration.antt =====
-- The text of a `time.Duration`, an int64 of nanoseconds.
use firezone_go.Prelude.{
  ℕ, zero, suc, ◌+◌, ◌/◌, ◌%◌, ◌^◌, [], ◌∷◌, ◌++◌, Str, codes, ltb, ◌==◌, if◌then◌else◌, ◌≡◌, refl,
}
use firezone_go.Prelude.Int.{ℤ, pos, negsuc}
use firezone_go.Go.Strconv.{itoa}

-- `v` in `k` digits, without the zeros at the end.
unfoldable pub fraction_digits : ℕ → ℕ → Str
fraction_digits zero v = []
fraction_digits (suc k) v =
    let rest = (b'0' + v / 10 ^ k) ∷ fraction_digits k (v % 10 ^ k) in if v == 0 then [] else rest

-- `fmtFrac`: `v / 10 ^ k`, its fraction and a unit.
unfoldable pub in_unit : ℕ → ℕ → Str → Str
unfolding itoa fraction_digits
in_unit k v unit =
    let rest = v % 10 ^ k in
    let point = if rest == 0 then [] else b'.' ∷ fraction_digits k rest in
    itoa (pos (v / 10 ^ k)) ++ point ++ unit

-- A second and more: the hours, the minutes and the seconds, from the first that is not 0.
unfoldable pub clock : ℕ → Str
unfolding in_unit
clock v =
    let minutes = v / 60000000000 in
    let seconds = in_unit 9 (v % 60000000000) (codes "s") in
    let shown = itoa (pos (minutes % 60)) ++ codes "m" ++ seconds in
    if minutes == 0
    then seconds
    else if ltb minutes 60
    then shown
    else itoa (pos (minutes / 60)) ++ codes "h" ++ shown

-- The micro sign is two bytes of UTF-8.
unfoldable pub magnitude : ℕ → Str
unfolding clock in_unit
magnitude v =
    if v == 0
    then codes "0s"
    else if ltb v 1000
    then in_unit 0 v (codes "ns")
    else if ltb v 1000000
    then in_unit 3 v (194 ∷ 181 ∷ codes "s")
    else if ltb v 1000000000
    then in_unit 6 v (codes "ms")
    else clock v

-- `Duration.String`.
unfoldable pub duration_string : ℤ → Str
unfolding magnitude
duration_string (pos n) = magnitude n
duration_string (negsuc n) = b'-' ∷ magnitude (suc n)

printed :
    (duration_string (pos 0) ≡ codes "0s")
    × (duration_string (negsuc 4) ≡ codes "-5ns")
    × (duration_string (pos 1500) ≡ codes "1.5" ++ 194 ∷ 181 ∷ codes "s")
    × (duration_string (pos 20050000) ≡ codes "20.05ms")
    × (duration_string (pos 60000000000) ≡ codes "1m0s")
    × (duration_string (negsuc 3661000000999) ≡ codes "-1h1m1.000001s")
unfolding duration_string
printed = (refl, refl, refl, refl, refl, refl)
