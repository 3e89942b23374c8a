-- ===== src/Path/Segments.antt =====
-- What the segments of a built path are to the server that receives it: it cuts the path at the
-- slashes and unescapes the parts (`segments_of`).
use firezone_go.Prelude.{
  ℕ, ◌<◌, true, List, [], ◌∷◌, Option, none, some, some_inj, Str, codes, str_eq_iff, map, ◌≡◌, ◌≢◌,
  ◌↔◌, refl, ap, sym, ◌∙◌, arith, All, All-map, All-weaken, IsBytes,
}
use firezone_go.Go.Escape.{path_segment, is_kept, upper_hex, escape, unescape}
use firezone_go.Go.Escape.Laws.{escape-All, unescape-escape}
use firezone_go.Go.Strings.{split}
use firezone_go.Go.Strings.Laws.{Lacks, split-join}
use firezone_go.Path.{check_id, build_path}

abbrev cons_to : Option (List Str) → Str → Option (List Str)
cons_to none x = none
cons_to (some xs) x = some (x ∷ xs)

abbrev both : Option Str → Option (List Str) → Option (List Str)
both none rest = none
both (some x) rest = cons_to rest x

unfoldable pub decode_all : List Str → Option (List Str)
decode_all [] = some []
decode_all (s ∷ ss) = both (unescape path_segment s) (decode_all ss)

unfoldable pub segments_of : Str → Option (List Str)
unfolding decode_all
segments_of s = decode_all (split s b'/')

-- Bytes that end a segment or the path, or that could be read as structure.
abbrev pub IsInert : ℕ → Type 0
IsInert c = (c ≢ b'/') × (c ≢ b'?') × (c ≢ b'#') × (c ≢ b';') × (c ≢ b' ')

is_kept-IsInert : (c : ℕ) → is_kept path_segment c ≡ true → IsInert c
unfolding is_kept
is_kept-IsInert c h = ground arith

upper_hex-IsInert : (n : ℕ) → n < 16 → IsInert (upper_hex n)
unfolding upper_hex
upper_hex-IsInert n h = ground arith

escape-IsInert : (s : Str) → IsBytes s → All IsInert (escape path_segment s)
escape-IsInert =
    escape-All IsInert path_segment (ground arith) (ground arith) upper_hex-IsInert is_kept-IsInert

parts-Lacks : (xs : List Str) → All IsBytes xs → All (Lacks b'/') (map (escape path_segment) xs)
parts-Lacks xs h = All-map (Lacks b'/') (escape path_segment) xs (
    All-weaken (λ x hx. All-weaken (λ c hc. hc.0) (escape path_segment x) (escape-IsInert x hx)) xs
      h)

split-build_path :
    (x : Str) (xs : List Str)
    → All IsBytes (x ∷ xs)
    → split (build_path (x ∷ xs)) b'/' ≡ map (escape path_segment) (x ∷ xs)
unfolding build_path
split-build_path x xs h = split-join b'/' _ _ (parts-Lacks (x ∷ xs) h)

decode_all-escape :
    (xs : List Str) → All IsBytes xs → decode_all (map (escape path_segment) xs) ≡ some xs
unfolding decode_all
decode_all-escape [] _ = refl
decode_all-escape (x ∷ xs) (hx, hs) =
    rw (unescape-escape path_segment x hx, decode_all-escape xs hs)

-- Cutting a built path at its slashes and unescaping the parts gives back exactly the segments it
-- was built from, for at least one segment and whatever bytes they hold, so a caller's text stays
-- within its one segment.
pub segments_of-build_path :
    (segments : List Str)
    → segments ≢ []
    → All IsBytes segments
    → segments_of (build_path segments) ≡ some segments
unfolding segments_of
segments_of-build_path [] ne _ = absurd (ne refl)
segments_of-build_path (x ∷ xs) _ h = rw (split-build_path x xs h) (decode_all-escape (x ∷ xs) h)

-- A text that unescapes to itself and is no ID is not what an ID is escaped to.
escape-ne :
    (t id : Str)
    → unescape path_segment t ≡ some t
    → IsBytes id
    → id ≢ t
    → escape path_segment id ≢ t
escape-ne t id self bytes ne e =
    ne
      (some_inj (sym (unescape-escape path_segment id bytes) ∙ ap (unescape path_segment) e ∙ self))

fixed_texts :
    (unescape path_segment (codes "") ≡ some (codes ""))
    × (unescape path_segment (codes ".") ≡ some (codes "."))
    × (unescape path_segment (codes "..") ≡ some (codes ".."))
unfolding unescape
fixed_texts = (refl, refl, refl)

-- An ID is refused exactly when it is "", "." or "..".
check_id_iff :
    (name id : Str)
    → (check_id name id ≡ none) ↔ ((id ≢ codes "") × (id ≢ codes ".") × (id ≢ codes ".."))
unfolding check_id
check_id_iff name id =
    ground (arith, str_eq_iff id (codes ""), str_eq_iff id (codes "."), str_eq_iff id (codes ".."))

-- An ID of bytes that passes the check is escaped to a segment that is not "", "." or ".." and
-- holds no '/', '?', '#', ';' or space.
pub check_id-IsInert :
    (name id : Str)
    → check_id name id ≡ none
    → IsBytes id
    → (escape path_segment id ≢ codes "")
      × (escape path_segment id ≢ codes ".")
      × (escape path_segment id ≢ codes "..")
      × All IsInert (escape path_segment id)
check_id-IsInert name id accepted bytes =
    let (no_empty, no_dot, no_dots) = (check_id_iff name id).0 accepted in
    (
      escape-ne (codes "") id fixed_texts.0 bytes no_empty,
      escape-ne (codes ".") id fixed_texts.1 bytes no_dot,
      escape-ne (codes "..") id fixed_texts.2 bytes no_dots,
      escape-IsInert id bytes,
    )
