-- ===== src/Path/Resolve.antt =====
-- Resolving a built path against the base URL.
use mathlib.Core.Path.{subst}
use firezone_go.Prelude.{
  ℕ, ◌<◌, true, List, [], ◌∷◌, ◌++◌, some, Str, codes, str_eq, str_eq→eq, option_map, ◌≡◌, ◌≢◌,
  refl, ap, sym, ◌∙◌, arith, All, All-append, IsBytes, Bool-cases, inl, inr, ◌⊎◌,
}
use firezone_go.Errors.{ok}
use firezone_go.Go.Escape.{path, path_segment, is_kept, upper_hex, escape, unescape, read, idle}
use firezone_go.Go.Escape.Laws.{escape-All, unescape-escape, read-escape}
use firezone_go.Go.Escape.Reading.{read-append, read-path, read-slash}
use firezone_go.Go.Strings.{join, trim_suffix}
use firezone_go.Go.Url.{Url, escaped_path, is_valid_byte}
use firezone_go.Go.Url.Laws.{IsValid, escaped_path_lem, escaped_path_of_raw}
use firezone_go.Path.{build_path, resolve_path}

trim_suffix-cases :
    (s : Str) → (trim_suffix s (codes "/") ≡ s) ⊎ (s ≡ trim_suffix s (codes "/") ++ b'/' ∷ [])
unfolding trim_suffix
trim_suffix-cases [] = inl refl
trim_suffix-cases (c ∷ s) = elim (Bool-cases (str_eq (c ∷ s) (codes "/"))) [
  | inl e ↦ inr (rw e (str_eq→eq (c ∷ s) (codes "/") e))
  | inr e ↦ elim (trim_suffix-cases s) [
    | inl whole ↦ inl (rw e (ap (λ t. c ∷ t) whole))
    | inr cut ↦ inr (rw e (ap (λ t. c ∷ t) cut))
  ]
]

trim_suffix-All : (P : ℕ → Type 0) (s : Str) → All P s → All P (trim_suffix s (codes "/"))
unfolding trim_suffix
trim_suffix-All P [] _ = tt
trim_suffix-All P (c ∷ s) (hc, hs) = elim (Bool-cases (str_eq (c ∷ s) (codes "/"))) [
  | inl e ↦ rw e tt
  | inr e ↦ rw e (hc, trim_suffix-All P s hs)
]

-- The part of an encoded path in front of its last slash can be read too.
unescape-trim_suffix :
    (s x : Str)
    → unescape path s ≡ some x
    → (y : Str) × (unescape path_segment (trim_suffix s (codes "/")) ≡ some y)
unfolding unescape
unescape-trim_suffix s x h = elim (trim_suffix-cases s) [
  | inl whole ↦ (x, rw whole (sym (read-path s idle) ∙ h))
  | inr cut ↦
      let h' : read path_segment (trim_suffix s (codes "/") ++ b'/' ∷ []) idle ≡ some x =
        subst (λ t. read path_segment t idle ≡ some x) cut (sym (read-path s idle) ∙ h) in
      let (y, hy, _) = read-slash path_segment (trim_suffix s (codes "/")) idle x h' in (y, hy)
]

-- Reading a built path gives its segments, joined.
read-build_path :
    (xs : List Str)
    → All IsBytes xs
    → unescape path_segment (build_path xs) ≡ some (join xs (codes "/"))
unfolding unescape build_path join read
read-build_path [] _ = refl
read-build_path (x ∷ []) (hx, _) = unfold unescape in unescape-escape path_segment x hx
read-build_path (x ∷ y ∷ ys) (hx, hs) = rw (read-escape path_segment x _ hx) (
    ap (λ o. option_map (λ t. x ++ t) (option_map (λ t. b'/' ∷ t) o)) (read-build_path (y ∷ ys) hs))

-- Bytes of a built path are valid in an encoded path.
segment_byte : (c : ℕ) → is_kept path_segment c ≡ true → is_valid_byte c ≡ true
unfolding is_valid_byte
segment_byte c h = ground arith

digit_byte : (n : ℕ) → n < 16 → is_valid_byte (upper_hex n) ≡ true
unfolding is_valid_byte upper_hex
digit_byte n h = ground arith

other_bytes :
    (is_valid_byte b'%' ≡ true) × (is_valid_byte b'+' ≡ true) × (is_valid_byte b'/' ≡ true)
unfolding is_valid_byte
other_bytes = (refl, refl, refl)

escape-IsValid : (s : Str) → IsBytes s → IsValid (escape path_segment s)
escape-IsValid = escape-All _ path_segment other_bytes.0 other_bytes.1 digit_byte segment_byte

build_path-IsValid : (xs : List Str) → All IsBytes xs → IsValid (build_path xs)
unfolding build_path join
build_path-IsValid [] _ = tt
build_path-IsValid (x ∷ []) (hx, _) = escape-IsValid x hx
build_path-IsValid (x ∷ y ∷ ys) (hx, hs) =
    All-append _ (escape path_segment x) _ (escape-IsValid x hx)
      (other_bytes.2, build_path-IsValid (y ∷ ys) hs)

append-slash-ne-nil : (s t : Str) → s ++ b'/' ∷ t ≢ []
append-slash-ne-nil [] t = cc
append-slash-ne-nil (c ∷ s) t = cc

unescape-slash :
    (a b x y : Str)
    → unescape path_segment a ≡ some x
    → unescape path_segment b ≡ some y
    → unescape path_segment (a ++ b'/' ∷ b) ≡ some (x ++ b'/' ∷ y)
unfolding unescape
unescape-slash a b x y ha hb =
    read-append path_segment (b'/' ∷ b) a idle x ha
    ∙ ap (λ o. option_map (λ t. x ++ t) (option_map (λ t. b'/' ∷ t) o)) hb

unescape-path : (s x : Str) → unescape path_segment s ≡ some x → unescape path s ≡ some x
unfolding unescape
unescape-path s x h = read-path s idle ∙ h

-- For every base URL with a path of bytes and all segments of bytes, resolving a built path
-- succeeds. The URL's decoded path is what the base path reads as, a slash and the segments as the
-- caller gave them; the path that it sends is the base's escaped path without a final slash, a
-- slash and the built path, so the escaping survives; every other part of the URL is the base's.
pub resolve_path-build_path :
    (base : Url) (segments : List Str)
    → IsBytes base.path
    → All IsBytes segments
    → (prefix : Str) × (u : Url) × (resolve_path base (build_path segments) ≡ ok u)
      × (unescape path_segment (trim_suffix (escaped_path base) (codes "/")) ≡ some prefix)
      × (u.path ≡ prefix ++ b'/' ∷ join segments (codes "/"))
      × (escaped_path u ≡ trim_suffix (escaped_path base) (codes "/") ++ b'/' ∷ build_path segments)
      × (u ≡ record base { path = u.path; raw_path = u.raw_path })
unfolding resolve_path
resolve_path-build_path base segments base_bytes bytes =
    let front = trim_suffix (escaped_path base) (codes "/") in
    let escaped = front ++ b'/' ∷ build_path segments in
    let (valid, reads) = escaped_path_lem base base_bytes in
    let (prefix, hp) = unescape-trim_suffix (escaped_path base) base.path reads in
    let decoded = prefix ++ b'/' ∷ join segments (codes "/") in
    let hd : unescape path_segment escaped ≡ some decoded =
      unescape-slash front (build_path segments) prefix _ hp (read-build_path segments bytes) in
    let u : Url = record base { path = decoded; raw_path = escaped } in
    let all_valid : IsValid escaped =
      All-append _ front _ (trim_suffix-All _ (escaped_path base) valid)
        (other_bytes.2, build_path-IsValid segments bytes) in
    (
      prefix,
      u,
      rw (hd, resolve_path),
      hp,
      refl,
      escaped_path_of_raw u (append-slash-ne-nil front _) all_valid
          (unescape-path escaped decoded hd),
      refl,
    )
