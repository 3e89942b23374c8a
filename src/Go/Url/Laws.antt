-- ===== src/Go/Url/Laws.antt =====
-- The escaped path of a URL is validly encoded and reads as its path, whatever its two path fields hold.
use firezone_go.Prelude.{
  ℕ, ◌<◌, Bool, true, ◌&&◌, not, [], ◌∷◌, Option, none, some, Str, codes, str_eq, str_eq→eq,
  str_eq_refl, str_eq_of_ne, ◌≡◌, ◌≢◌, refl, ap, sym, ◌∙◌, arith, All, IsBytes, Bool-cases, inl,
  inr,
}
use firezone_go.Go.Escape.{path, is_kept, upper_hex, escape, unescape}
use firezone_go.Go.Escape.Laws.{escape-All, unescape-escape}
use firezone_go.Go.Url.{Url, is_valid_byte, valid_encoded, reads_as, escaped_path}

abbrev pub IsValid : Str → Type 0
IsValid = All (λ c. is_valid_byte c ≡ true)

valid_encoded-IsValid : (s : Str) → valid_encoded s ≡ true → IsValid s
unfolding valid_encoded
valid_encoded-IsValid [] h = tt
valid_encoded-IsValid (c ∷ s) h = (ground arith, valid_encoded-IsValid s (ground arith))

IsValid-valid_encoded : (s : Str) → IsValid s → valid_encoded s ≡ true
unfolding valid_encoded
IsValid-valid_encoded [] h = refl
IsValid-valid_encoded (c ∷ s) (hc, hs) = rw (hc, IsValid-valid_encoded s hs)

is_valid_byte_of_kept : (c : ℕ) → is_kept path c ≡ true → is_valid_byte c ≡ true
unfolding is_valid_byte
is_valid_byte_of_kept c h = ground arith

is_valid_byte-upper_hex : (n : ℕ) → n < 16 → is_valid_byte (upper_hex n) ≡ true
unfolding is_valid_byte upper_hex
is_valid_byte-upper_hex n h = ground arith

is_valid_byte_percent : is_valid_byte b'%' ≡ true
unfolding is_valid_byte
is_valid_byte_percent = refl

is_valid_byte_plus : is_valid_byte b'+' ≡ true
unfolding is_valid_byte
is_valid_byte_plus = refl

escape-IsValid : (s : Str) → IsBytes s → IsValid (escape path s)
escape-IsValid =
    escape-All _ path is_valid_byte_percent is_valid_byte_plus is_valid_byte-upper_hex
      is_valid_byte_of_kept

reads_as→eq : (o : Option Str) (t : Str) → reads_as o t ≡ true → o ≡ some t
reads_as→eq none t h = cc
reads_as→eq (some s) t h = ap some (str_eq→eq s t h)

star : unescape path (codes "*") ≡ some (codes "*")
unfolding unescape
star = refl

star-IsValid : IsValid (codes "*")
unfolding is_valid_byte
star-IsValid = (refl, tt)

module _ (u : Url) (bytes : IsBytes u.path) where
  abbrev pub use_raw : Bool
  use_raw =
      not (str_eq u.raw_path [])
      && (valid_encoded u.raw_path && reads_as (unescape path u.raw_path) u.path)

  pub escaped_path_lem : IsValid (escaped_path u) × (unescape path (escaped_path u) ≡ some u.path)
  unfolding escaped_path
  escaped_path_lem = elim (Bool-cases use_raw) [
    | inl raw ↦ rw raw (
      valid_encoded-IsValid u.raw_path (ground arith),
      reads_as→eq (unescape path u.raw_path) u.path (ground arith),
    )
    | inr plain ↦ elim (Bool-cases (str_eq u.path (codes "*"))) [
      | inl e ↦ rw (plain, e) (star-IsValid, star ∙ ap some (sym (str_eq→eq u.path (codes "*") e)))
      | inr e ↦ rw (plain, e) (escape-IsValid u.path bytes, unescape-escape path u.path bytes)
    ]
  ]

-- A raw path that is valid and reads as the path is what is sent.
pub escaped_path_of_raw :
    (u : Url)
    → u.raw_path ≢ []
    → IsValid u.raw_path
    → unescape path u.raw_path ≡ some u.path
    → escaped_path u ≡ u.raw_path
unfolding escaped_path
escaped_path_of_raw u ne valid reads = rw (
  str_eq_of_ne u.raw_path [] ne,
  IsValid-valid_encoded u.raw_path valid,
  reads,
  str_eq_refl u.path,
)
