-- ===== src/Go/Time.antt =====
-- time.Time as the client stores it: the RFC 3339 text that a timestamp was decoded from, after the
-- checks that `Time.UnmarshalJSON` makes. "" is the zero time.
use firezone_go.Prelude.{
  ℕ, ◌+◌, ◌-◌, ◌*◌, ◌%◌, Bool, true, false, ◌&&◌, ◌||◌, not, [], ◌∷◌, none, some, Str, codes, ltb,
  leb, ◌==◌, if◌then◌else◌, ◌≡◌, refl,
}
use firezone_go.Go.Strconv.{is_decimal}
use firezone_go.Go.Json.{null, bool, num, str, arr, obj}
use firezone_go.Go.Json.Decode.{Decoder}

abbrev pub Time : Type 0
Time = Str

-- The digits at the front, as many as asked for, and the rest.
unfoldable pub number : ℕ → ℕ → ℕ
number a b = (a - b'0') * 10 + (b - b'0')

unfoldable pub is_leap : ℕ → Bool
is_leap y = y % 4 == 0 && (not (y % 100 == 0) || y % 400 == 0)

unfoldable pub days_in : ℕ → ℕ → ℕ
unfolding is_leap
days_in y m =
    if m == 2
    then if is_leap y then 29 else 28
    else if m == 4 || (m == 6 || (m == 9 || m == 11))
    then 30
    else 31

unfoldable pub is_offset : Str → Bool
unfolding number
is_offset (z ∷ []) = z == b'Z'
is_offset (s ∷ a ∷ b ∷ colon ∷ d ∷ e ∷ []) =
    (s == b'+' || s == b'-')
    && (is_decimal a
        && (is_decimal b
            && (colon == b':'
                && (is_decimal d
                    && (is_decimal e && (ltb (number a b) 24 && ltb (number d e) 60))))))
is_offset _ = false

-- Digits of a fraction, and the offset behind them.
unfoldable pub is_fraction : Str → Bool
unfolding is_offset
is_fraction [] = false
is_fraction (c ∷ s) =
    let rest = is_fraction s in if is_decimal c then rest || is_offset s else false

unfoldable pub is_zone : Str → Bool
unfolding is_fraction
is_zone [] = false
is_zone (c ∷ s) = if c == b'.' then is_fraction s else is_offset (c ∷ s)

unfoldable pub is_clock : Str → Bool
unfolding is_zone number
is_clock (a ∷ b ∷ x ∷ c ∷ d ∷ y ∷ e ∷ f ∷ s) =
    (is_decimal a
      && (is_decimal b && (is_decimal c && (is_decimal d && (is_decimal e && is_decimal f)))))
    && ((x == b':' && y == b':')
        && ((ltb (number a b) 24 && (ltb (number c d) 60 && ltb (number e f) 60)) && is_zone s))
is_clock _ = false

unfoldable pub is_rfc3339 : Str → Bool
unfolding is_clock days_in number
is_rfc3339 (y1 ∷ y2 ∷ y3 ∷ y4 ∷ x ∷ m1 ∷ m2 ∷ y ∷ d1 ∷ d2 ∷ t ∷ s) =
    let month = number m1 m2 in
    let day = number d1 d2 in
    (is_decimal y1 && (is_decimal y2 && (is_decimal y3 && is_decimal y4)))
    && ((is_decimal m1 && (is_decimal m2 && (is_decimal d1 && is_decimal d2)))
        && ((x == b'-' && (y == b'-' && t == b'T'))
            && ((leb 1 month && leb month 12)
                && ((leb 1 day && leb day (days_in (number y1 y2 * 100 + number y3 y4) month))
                    && is_clock s))))
is_rfc3339 _ = false

unfoldable pub dec_time : Decoder Time
unfolding is_rfc3339
dec_time (str s) a = if is_rfc3339 s then some s else none
dec_time null a = some a
dec_time (bool b) a = none
dec_time (num n) a = none
dec_time (arr xs) a = none
dec_time (obj fs) a = none

timestamps :
    (is_rfc3339 (codes "2024-02-29T12:00:00.5Z") ≡ true)
    × (is_rfc3339 (codes "2023-02-29T12:00:00Z") ≡ false)
unfolding is_rfc3339 is_decimal
timestamps = (refl, refl)
