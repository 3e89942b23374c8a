-- ===== src/Go/Escape.antt =====
-- Percent-encoding as in Go's net/url: `PathEscape` (mode `path_segment`), `QueryEscape` (mode
-- `query_component`), the escaping of a whole path by `URL.EscapedPath` (mode `path`), and the
-- unescaping that undoes each.
pub mod Laws
pub mod Reading
use firezone_go.Prelude.{
  ℕ, ◌+◌, ◌-◌, ◌*◌, ◌/◌, ◌%◌, Bool, true, false, ◌&&◌, ◌||◌, not, List, [], ◌∷◌, ◌++◌, Option, none,
  some, Str, ltb, leb, ◌==◌, if◌then◌else◌, option_map, ◌≡◌, refl, codes,
}

pub data Mode : Type 0 where
  path path_segment query_component : Mode

unfoldable pub is_alnum : ℕ → Bool
is_alnum c = leb b'a' c && leb c b'z' || (leb b'A' c && leb c b'Z' || leb b'0' c && leb c b'9')

-- '-', '_', '.' and '~'.
unfoldable pub is_mark : ℕ → Bool
is_mark c = c == b'-' || (c == b'_' || (c == b'.' || c == b'~'))

-- '$', '&', '+', ':', '=' and '@'.
unfoldable pub is_delim : ℕ → Bool
is_delim c = c == b'$' || (c == b'&' || (c == b'+' || (c == b':' || (c == b'=' || c == b'@'))))

-- ',', '/', ';'.
unfoldable pub is_part_delim : ℕ → Bool
is_part_delim c = c == b',' || (c == b'/' || c == b';')

-- Which bytes a mode writes as they are.
unfoldable pub is_kept : Mode → ℕ → Bool
unfolding is_alnum is_mark is_delim is_part_delim
is_kept path c = is_alnum c || (is_mark c || (is_delim c || is_part_delim c))
is_kept path_segment c = is_alnum c || (is_mark c || is_delim c)
is_kept query_component c = is_alnum c || is_mark c

unfoldable pub should_escape : Mode → ℕ → Bool
unfolding is_kept
should_escape m c = not (is_kept m c)

unfoldable pub upper_hex : ℕ → ℕ
upper_hex n = if ltb n 10 then b'0' + n else b'A' + n - 10

unfoldable pub is_hex : ℕ → Bool
is_hex c = leb b'0' c && leb c b'9' || (leb b'a' c && leb c b'f' || leb b'A' c && leb c b'F')

unfoldable pub unhex : ℕ → ℕ
unhex c =
    if leb b'0' c && leb c b'9'
    then c - b'0'
    else if leb b'a' c && leb c b'f'
    then c - b'a' + 10
    else c - b'A' + 10

-- A query writes a space as '+'.
unfoldable pub space_as_plus : Mode → ℕ → Bool
space_as_plus query_component c = c == b' '
space_as_plus path c = false
space_as_plus path_segment c = false

unfoldable pub escape_byte : Mode → ℕ → Str
unfolding should_escape space_as_plus upper_hex
escape_byte m c =
    if space_as_plus m c
    then b'+' ∷ []
    else if should_escape m c
    then b'%' ∷ upper_hex (c / 16) ∷ upper_hex (c % 16) ∷ []
    else c ∷ []

unfoldable pub escape : Mode → Str → Str
unfolding escape_byte
escape m [] = []
escape m (c ∷ s) = escape_byte m c ++ escape m s

-- Where the reading of a text stands: between bytes, behind '%', or behind '%' and one digit.
pub data State : Type 0 where
  idle percent : State
  digit : ℕ → State

unfoldable pub plain : Mode → ℕ → ℕ
plain query_component c = if c == b'+' then b' ' else c
plain path c = c
plain path_segment c = c

unfoldable pub read : Mode → Str → State → Option Str
unfolding plain is_hex unhex
read m [] idle = some []
read m [] percent = none
read m [] (digit h) = none
read m (c ∷ s) idle = elim (c == b'%') [
  | true ↦ read m s percent
  | false ↦ option_map (λ t. plain m c ∷ t) (read m s idle)
]
read m (c ∷ s) percent = let rest = read m s (digit (unhex c)) in if is_hex c then rest else none
read m (c ∷ s) (digit h) =
    let rest = option_map (λ t. (h * 16 + unhex c) ∷ t) (read m s idle) in
    if is_hex c then rest else none

-- `none` is an invalid escape.
unfoldable pub unescape : Mode → Str → Option Str
unfolding read
unescape m s = read m s idle

escaped_id : escape path_segment (codes "../a b?") ≡ codes "..%2Fa%20b%3F"
unfolding escape
escaped_id = refl

bad_escape : unescape path_segment (codes "a%2") ≡ none
unfolding unescape
bad_escape = refl
