-- ===== src/Go/Escape/Laws.antt =====
-- Unescaping undoes escaping, in every mode, and escaped text holds only kept bytes and escapes.
use mathlib.Core.Bool.{not}
use mathlib.Core.List.{append_assoc, append-nil}
use firezone_go.Prelude.{
  ℕ, ◌+◌, ◌*◌, ◌/◌, ◌%◌, ◌<◌, Bool, true, false, [], ◌∷◌, ◌++◌, Option, none, some, Str, ◌==◌, ◌≡◌,
  ◌≢◌, refl, arith, option_map, IsBytes, All, All-append, Bool-cases, inl, inr,
}
use firezone_go.Go.Escape.{
  Mode, path, path_segment, query_component, is_kept, should_escape, upper_hex, is_hex, unhex,
  space_as_plus, escape_byte, escape, idle, plain, read, unescape,
}

is_hex-upper_hex : (n : ℕ) → n < 16 → is_hex (upper_hex n) ≡ true
unfolding is_hex upper_hex
is_hex-upper_hex n h = ground arith

unhex-upper_hex : (n : ℕ) → n < 16 → unhex (upper_hex n) ≡ n
unfolding unhex upper_hex
unhex-upper_hex n h = ground arith

-- A byte that stands for itself is no '%', and reading leaves it alone.
is_kept-plain : (m : Mode) (c : ℕ) → is_kept m c ≡ true → (c ≢ b'%') × (plain m c ≡ c)
unfolding is_kept plain
is_kept-plain path c h = ground arith
is_kept-plain path_segment c h = ground arith
is_kept-plain query_component c h = ground arith

not-true : (b : Bool) → not b ≡ false → b ≡ true
not-true b h = ground arith

should_escape-kept : (m : Mode) (c : ℕ) → should_escape m c ≡ false → is_kept m c ≡ true
unfolding should_escape
should_escape-kept m c h = not-true (is_kept m c) h

plus_space : (m : Mode) (c : ℕ) → space_as_plus m c ≡ true → plain m b'+' ≡ c
unfolding space_as_plus plain
plus_space path c h = cc
plus_space path_segment c h = cc
plus_space query_component c h = ground arith

module _ (m : Mode) (s : Str) where
  -- One plain byte.
  read-plain :
      (c : ℕ) → c ≢ b'%' → read m (c ∷ s) idle ≡ option_map (λ t. plain m c ∷ t) (read m s idle)
  unfolding read
  read-plain c h = elim (Bool-cases (c == b'%')) [
    | inl e ↦ absurd (h (ground arith))
    | inr e ↦ rw (e, read)
  ]

  -- One escaped byte.
  read-escaped :
      (c : ℕ)
      → c < 256
      → read m (b'%' ∷ upper_hex (c / 16) ∷ upper_hex (c % 16) ∷ s) idle
        ≡ option_map (λ t. c ∷ t) (read m s idle)
  unfolding read
  read-escaped c h =
      let hi : c / 16 < 16 = omega arith in
      let lo : c % 16 < 16 = omega arith in
      let whole : c / 16 * 16 + c % 16 ≡ c = omega arith in
      rw (
        is_hex-upper_hex (c / 16) hi,
        is_hex-upper_hex (c % 16) lo,
        unhex-upper_hex (c / 16) hi,
        unhex-upper_hex (c % 16) lo,
        whole,
      )

  read-escape_byte :
      (c : ℕ)
      → c < 256
      → read m (escape_byte m c ++ s) idle ≡ option_map (λ t. c ∷ t) (read m s idle)
  unfolding escape_byte
  read-escape_byte c h = elim (Bool-cases (space_as_plus m c)) [
    | inl space ↦ rw (space, escape_byte) (rw (read-plain b'+' (omega arith), plus_space m c space))
    | inr other ↦ elim (Bool-cases (should_escape m c)) [
      | inl esc ↦ rw (other, esc, escape_byte) (read-escaped c h)
      | inr kept ↦
          let (not_percent, same) = is_kept-plain m c (should_escape-kept m c kept) in
          rw (other, kept, escape_byte) (rw (read-plain c not_percent, same))
    ]
  ]

option_map-map :
    (c : ℕ) (s : Str) (o : Option Str)
    → option_map (λ t. c ∷ t) (option_map (λ t. s ++ t) o) ≡ option_map (λ t. (c ∷ s) ++ t) o
option_map-map c s none = refl
option_map-map c s (some t) = refl

option_map-nil : (o : Option Str) → o ≡ option_map (λ t. [] ++ t) o
option_map-nil none = refl
option_map-nil (some t) = refl

-- Reading escaped text gives the text back, and goes on with what follows.
pub read-escape :
    (m : Mode) (s rest : Str)
    → IsBytes s
    → read m (escape m s ++ rest) idle ≡ option_map (λ t. s ++ t) (read m rest idle)
unfolding escape
read-escape m [] rest _ = option_map-nil _
read-escape m (c ∷ s) rest (hc, hs) =
    rw (append_assoc, read-escape_byte m (escape m s ++ rest) c hc, read-escape m s rest hs)
      (option_map-map c s _)

pub unescape-escape : (m : Mode) (s : Str) → IsBytes s → unescape m (escape m s) ≡ some s
unfolding unescape read
unescape-escape m s h = cc (read-escape m s [] h, append-nil (escape m s), append-nil s)

-- What every byte of escaped text satisfies.
module _ (P : ℕ → Type 0) (m : Mode) where
  escape_byte-All :
      P b'%'
      → P b'+'
      → ((n : ℕ) → n < 16 → P (upper_hex n))
      → ((c : ℕ) → is_kept m c ≡ true → P c)
      → (c : ℕ) → c < 256
      → All P (escape_byte m c)
  unfolding escape_byte
  escape_byte-All hp hq hx hk c h = elim (Bool-cases (space_as_plus m c)) [
    | inl space ↦ rw (space, escape_byte) (hq, tt)
    | inr other ↦ elim (Bool-cases (should_escape m c)) [
      | inl esc ↦
          rw (other, esc, escape_byte)
            (hp, (hx (c / 16) (omega arith), (hx (c % 16) (omega arith), tt)))
      | inr kept ↦ rw (other, kept, escape_byte) (hk c (should_escape-kept m c kept), tt)
    ]
  ]

  pub escape-All :
      P b'%'
      → P b'+'
      → ((n : ℕ) → n < 16 → P (upper_hex n))
      → ((c : ℕ) → is_kept m c ≡ true → P c)
      → (s : Str) → IsBytes s
      → All P (escape m s)
  unfolding escape
  escape-All hp hq hx hk [] _ = tt
  escape-All hp hq hx hk (c ∷ s) (hc, hs) =
      All-append P (escape_byte m c) (escape m s) (escape_byte-All hp hq hx hk c hc)
        (escape-All hp hq hx hk s hs)
