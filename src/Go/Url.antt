-- ===== src/Go/Url.antt =====
-- The `URL` of net/url: the fields that the client reads or copies, and `EscapedPath`.
pub mod Laws
use firezone_go.Prelude.{
  ℕ, Bool, true, false, ◌||◌, ◌&&◌, not, [], ◌∷◌, Option, none, some, Str, codes, str_eq, ◌==◌,
  if◌then◌else◌, ◌≡◌, refl,
}
use firezone_go.Go.Escape.{path, is_kept, escape, unescape}

pub record Url : Type 0 where
  pub scheme : Str
  pub user : Str
  pub host : Str
  pub path : Str
  pub raw_path : Str
  pub force_query : Bool
  pub raw_query : Str
  pub fragment : Str

-- '!', ''', '(', ')', '*', '[', ']' and '%', which an encoded path may hold beside what is kept.
unfoldable pub is_extra : ℕ → Bool
is_extra c =
    c == b'!'
    || (c == 39
        || (c == b'(' || (c == b')' || (c == b'*' || (c == b'[' || (c == b']' || c == b'%'))))))

unfoldable pub is_valid_byte : ℕ → Bool
unfolding is_extra is_kept
is_valid_byte c = is_extra c || is_kept path c

-- `validEncoded` for a path
unfoldable pub valid_encoded : Str → Bool
unfolding is_valid_byte
valid_encoded [] = true
valid_encoded (c ∷ s) = is_valid_byte c && valid_encoded s

abbrev pub reads_as : Option Str → Str → Bool
reads_as none t = false
reads_as (some s) t = str_eq s t

unfoldable pub escaped_path : Url → Str
unfolding valid_encoded
escaped_path u =
    if not (str_eq u.raw_path [])
      && (valid_encoded u.raw_path && reads_as (unescape path u.raw_path) u.path)
    then u.raw_path
    else if str_eq u.path (codes "*")
    then codes "*"
    else escape path u.path
