-- ===== src/Go/Escape/Reading.antt =====
-- Reading escaped text piece by piece.
use mathlib.Core.Path.{subst}
use firezone_go.Prelude.{
  ℕ, ◌+◌, ◌*◌, [], ◌∷◌, ◌++◌, Option, none, some, some_inj, Str, ◌==◌, ◌≡◌, refl, sym, ap,
  option_map, Bool-cases, inl, inr,
}
use firezone_go.Go.Escape.{
  Mode, path, path_segment, query_component, is_hex, unhex, State, idle, percent, digit, plain,
  read,
}

option_map-append :
    (c : ℕ) (x : Str) (o : Option Str)
    → option_map (λ t. c ∷ t) (option_map (λ t. x ++ t) o) ≡ option_map (λ t. (c ∷ x) ++ t) o
option_map-append c x none = refl
option_map-append c x (some t) = refl

option_map-nil : (o : Option Str) → o ≡ option_map (λ t. [] ++ t) o
option_map-nil none = refl
option_map-nil (some t) = refl

option_map-eq-some :
    (c : ℕ) (o : Option Str) {x : Str}
    → option_map (λ t. c ∷ t) o ≡ some x
    → (y : Str) × (o ≡ some y) × (x ≡ c ∷ y)
option_map-eq-some c none h = cc
option_map-eq-some c (some y) h = (y, refl, cc)

-- Text that reads as `x` may stand in front of anything.
module _ (m : Mode) (b : Str) where
  pub read-append :
      (a : Str) (st : State) (x : Str)
      → read m a st ≡ some x
      → read m (a ++ b) st ≡ option_map (λ t. x ++ t) (read m b idle)
  unfolding read
  read-append [] idle x h =
      subst (λ z. read m b idle ≡ option_map (λ t. z ++ t) (read m b idle)) (some_inj h)
        (option_map-nil _)
  read-append [] percent x h = cc
  read-append [] (digit n) x h = cc
  read-append (c ∷ a) idle x h = elim (Bool-cases (c == b'%')) [
    | inl e ↦ rw (e, read) (read-append a percent x (rw (e, read) at h))
    | inr e ↦
        let (y, hy, same) = option_map-eq-some (plain m c) _ (rw (e, read) at h) in
        rw (e, read, read-append a idle y hy, same) (option_map-append (plain m c) y _)
  ]
  read-append (c ∷ a) percent x h = elim (Bool-cases (is_hex c)) [
    | inl e ↦ rw e (read-append a (digit (unhex c)) x (rw e at h))
    | inr e ↦ cc (rw e at h)
  ]
  read-append (c ∷ a) (digit n) x h = elim (Bool-cases (is_hex c)) [
    | inl e ↦
        let (y, hy, same) = option_map-eq-some (n * 16 + unhex c) _ (rw e at h) in
        rw (e, read-append a idle y hy, same) (option_map-append (n * 16 + unhex c) y _)
    | inr e ↦ cc (rw e at h)
  ]

-- A path and a path segment are read alike.
pub read-path : (s : Str) (st : State) → read path s st ≡ read path_segment s st
unfolding read
read-path [] idle = refl
read-path [] percent = refl
read-path [] (digit n) = refl
read-path (c ∷ s) idle = elim (Bool-cases (c == b'%')) [
  | inl e ↦ rw (e, read) (read-path s percent)
  | inr e ↦ rw (e, read) (ap (option_map (λ t. c ∷ t)) (read-path s idle))
]
read-path (c ∷ s) percent = rw (read-path s (digit (unhex c)))
read-path (c ∷ s) (digit n) = rw (read-path s idle)

plain-slash : (m : Mode) → plain m b'/' ≡ b'/'
unfolding plain
plain-slash path = refl
plain-slash path_segment = refl
plain-slash query_component = refl

-- Text in front of a slash is read on its own.
module _ (m : Mode) where
  pub read-slash :
      (a : Str) (st : State) (x : Str)
      → read m (a ++ b'/' ∷ []) st ≡ some x
      → (y : Str) × (read m a st ≡ some y) × (x ≡ y ++ b'/' ∷ [])
  unfolding read
  read-slash [] idle x h = ([], refl, sym (some_inj (rw (plain-slash m) at h)))
  read-slash [] percent x h = cc
  read-slash [] (digit n) x h = cc
  read-slash (c ∷ a) idle x h = elim (Bool-cases (c == b'%')) [
    | inl e ↦
        let (y, hy, same) = read-slash a percent x (rw (e, read) at h) in (y, rw (e, read) hy, same)
    | inr e ↦
        let (z, hz, whole) = option_map-eq-some (plain m c) _ (rw (e, read) at h) in
        let (y, hy, same) = read-slash a idle z hz in
        (plain m c ∷ y, rw (e, read, hy), rw (whole, same))
  ]
  read-slash (c ∷ a) percent x h = elim (Bool-cases (is_hex c)) [
    | inl e ↦ let (y, hy, same) = read-slash a (digit (unhex c)) x (rw e at h) in (y, rw e hy, same)
    | inr e ↦ cc (rw e at h)
  ]
  read-slash (c ∷ a) (digit n) x h = elim (Bool-cases (is_hex c)) [
    | inl e ↦
        let (z, hz, whole) = option_map-eq-some (n * 16 + unhex c) _ (rw e at h) in
        let (y, hy, same) = read-slash a idle z hz in
        ((n * 16 + unhex c) ∷ y, rw (e, hy), rw (whole, same))
    | inr e ↦ cc (rw e at h)
  ]
