-- ===== src/Query/Encode.antt =====
-- What the server reads from an encoded query.
use mathlib.Core.List.{append_assoc, append-nil}
use firezone_go.Prelude.{
  ℕ, ◌<◌, Bool, true, false, ◌||◌, List, [], ◌∷◌, ◌++◌, Option, none, some, Str, codes, str_eq,
  str_eq_iff, if◌then◌else◌, map, ◌≡◌, ◌≢◌, refl, ap, ◌∙◌, arith, Bool-cases, inl, inr, All,
  All-append, All-map, All-weaken, IsBytes, ◌==◌,
}
use firezone_go.Go.Escape.{query_component, is_kept, upper_hex, escape, unescape}
use firezone_go.Go.Escape.Laws.{escape-All, unescape-escape}
use firezone_go.Go.Sort.{str_leb, insert_sorted, sort_strings}
use firezone_go.Go.Strings.{join, split}
use firezone_go.Go.Strings.Laws.{Lacks, split-join}
use firezone_go.Go.Values.{Values, lookup, keys, value_or_empty, encode_pair, encode}

-- A part of the query, cut at its first '='; the second text is empty if there is none.
unfoldable pub cut : Str → Str → Str × Str
cut front [] = (front, [])
cut front (c ∷ s) = elim (c == b'=') [ true ↦ (front, s) | false ↦ cut (front ++ c ∷ []) s ]

abbrev pair_of : Option Str → Option Str → Option (Str × Str)
pair_of none v = none
pair_of (some k) none = none
pair_of (some k) (some v) = some (k, v)

unfoldable pub parse_pair : Str → Option (Str × Str)
unfolding cut
parse_pair s =
    let (k, v) = cut [] s in pair_of (unescape query_component k) (unescape query_component v)

abbrev in_front : Option (Str × Str) → Option Values → Option Values
in_front none rest = none
in_front (some e) none = none
in_front (some e) (some q) = some (e ∷ q)

-- url.ParseQuery: empty parts are skipped.
unfoldable pub parse_parts : List Str → Option Values
unfolding parse_pair
parse_parts [] = some []
parse_parts ([] ∷ ps) = parse_parts ps
parse_parts ((c ∷ p) ∷ ps) = in_front (parse_pair (c ∷ p)) (parse_parts ps)

unfoldable pub parse_query : Str → Option Values
unfolding parse_parts
parse_query s = parse_parts (split s b'&')

-- Bytes of an escaped component.
abbrev IsComponent : ℕ → Type 0
IsComponent c = (c ≢ b'&') × (c ≢ b'=')

is_kept-IsComponent : (c : ℕ) → is_kept query_component c ≡ true → IsComponent c
unfolding is_kept
is_kept-IsComponent c h = ground arith

upper_hex-IsComponent : (n : ℕ) → n < 16 → IsComponent (upper_hex n)
unfolding upper_hex
upper_hex-IsComponent n h = ground arith

escape-IsComponent : (s : Str) → IsBytes s → All IsComponent (escape query_component s)
escape-IsComponent =
    escape-All IsComponent query_component (ground arith) (ground arith) upper_hex-IsComponent
      is_kept-IsComponent

cut_lem : (s front v : Str) → Lacks b'=' s → cut front (s ++ b'=' ∷ v) ≡ (front ++ s, v)
unfolding cut
cut_lem [] front v _ = rw append-nil
cut_lem (c ∷ s) front v (hc, hs) = elim (Bool-cases (c == b'=')) [
  | inl e ↦ absurd (hc (ground arith))
  | inr e ↦ rw (e, cut, cut_lem s (front ++ c ∷ []) v hs, append_assoc)
]

encode_pair-Lacks : (k v : Str) → IsBytes k → IsBytes v → Lacks b'&' (encode_pair k v)
unfolding encode_pair
encode_pair-Lacks k v hk hv =
    All-append _ (escape query_component k) _
      (All-weaken (λ c hc. hc.0) (escape query_component k) (escape-IsComponent k hk))
      (ground arith, All-weaken (λ c hc. hc.0) (escape query_component v) (escape-IsComponent v hv))

parse_pair-encode_pair :
    (k v : Str) → IsBytes k → IsBytes v → parse_pair (encode_pair k v) ≡ some (k, v)
unfolding parse_pair encode_pair
parse_pair-encode_pair k v hk hv = rw (
  cut_lem (escape query_component k) [] (escape query_component v)
      (All-weaken (λ c hc. hc.1) (escape query_component k) (escape-IsComponent k hk)),
  unescape-escape query_component k hk,
  unescape-escape query_component v hv,
)

-- A part that holds a pair is not empty, so it is not skipped.
parse_parts-pair :
    (k v : Str) (ps : List Str)
    → parse_parts (encode_pair k v ∷ ps) ≡ in_front (parse_pair (encode_pair k v)) (parse_parts ps)
unfolding encode_pair
parse_parts-pair k v ps = go (escape query_component k)
  where
    go :
        (front : Str)
        → parse_parts ((front ++ b'=' ∷ escape query_component v) ∷ ps)
          ≡ in_front (parse_pair (front ++ b'=' ∷ escape query_component v)) (parse_parts ps)
    go [] = unfold parse_parts in refl
    go (c ∷ front) = unfold parse_parts in refl

module _ (q : Values) where
  abbrev value : Str → Str
  value k = value_or_empty (lookup k q)

  abbrev IsPair : Str → Type 0
  IsPair k = IsBytes k × IsBytes (value k)

  parse_parts-map :
      (ks : List Str)
      → All IsPair ks
      → parse_parts (map (λ k. encode_pair k (value k)) ks) ≡ some (map (λ k. (k, value k)) ks)
  parse_parts-map [] _ = unfold parse_parts in refl
  parse_parts-map (k ∷ ks) (hk, hs) =
      rw (parse_parts-pair, parse_pair-encode_pair k (value k) hk.0 hk.1, parse_parts-map ks hs)

  parse_query-join :
      (ks : List Str)
      → All IsPair ks
      → parse_query (join (map (λ k. encode_pair k (value k)) ks) (codes "&"))
        ≡ some (map (λ k. (k, value k)) ks)
  unfolding parse_query
  parse_query-join [] _ = unfold join split in refl
  parse_query-join (k ∷ ks) h =
      rw
        (split-join b'&' _ _ (
          All-map (Lacks b'&') _ (k ∷ ks)
            (All-weaken (λ j hj. encode_pair-Lacks j (value j) hj.0 hj.1) (k ∷ ks) h)))
        (parse_parts-map (k ∷ ks) h)

-- Which keys a list names.
abbrev has : Str → List Str → Bool
has k [] = false
has k (j ∷ ks) = str_eq j k || has k ks

has-insert_sorted :
    (k x : Str) (ks : List Str) → has k (insert_sorted x ks) ≡ str_eq x k || has k ks
unfolding insert_sorted
has-insert_sorted k x [] = refl
has-insert_sorted k x (y ∷ ys) = ground (arith, has-insert_sorted k x ys)

has-sort_strings : (k : Str) (ks : List Str) → has k (sort_strings ks) ≡ has k ks
unfolding sort_strings
has-sort_strings k [] = refl
has-sort_strings k (x ∷ xs) =
    has-insert_sorted k x (sort_strings xs) ∙ ap (λ b. str_eq x k || b) (has-sort_strings k xs)

module _ (P : Str → Type 0) where
  insert_sorted-All : (x : Str) (ks : List Str) → P x → All P ks → All P (insert_sorted x ks)
  unfolding insert_sorted
  insert_sorted-All x [] hx _ = (hx, tt)
  insert_sorted-All x (y ∷ ys) hx (hy, hs) = elim (Bool-cases (str_leb x y)) [
    | inl e ↦ rw e (hx, (hy, hs))
    | inr e ↦ rw e (hy, insert_sorted-All x ys hx hs)
  ]

  sort_strings-All : (ks : List Str) → All P ks → All P (sort_strings ks)
  unfolding sort_strings
  sort_strings-All [] _ = tt
  sort_strings-All (x ∷ xs) (hx, hs) =
      insert_sorted-All x (sort_strings xs) hx (sort_strings-All xs hs)

lookup-map :
    (f : Str → Str) (k : Str) (ks : List Str)
    → lookup k (map (λ j. (j, f j)) ks) ≡ (if has k ks then some (f k) else none)
unfolding lookup
lookup-map f k [] = refl
lookup-map f k (j ∷ ks) = ground (arith, lookup-map f k ks, str_eq_iff j k)

lookup-has :
    (k : Str) (q : Values)
    → (if has k (keys q) then some (value_or_empty (lookup k q)) else none) ≡ lookup k q
unfolding lookup
lookup-has k [] = refl
lookup-has k ((j, w) ∷ q) = ground (arith, lookup-has k q)

-- Keys and values are bytes.
abbrev pub IsText : Values → Type 0
IsText = All (λ e. IsBytes e.0 × IsBytes e.1)

value-IsBytes : (q : Values) → IsText q → (k : Str) → IsBytes (value q k)
unfolding lookup
value-IsBytes [] _ k = tt
value-IsBytes ((j, w) ∷ q) (he, h) k = elim (Bool-cases (str_eq j k)) [
  | inl e ↦ rw (e, lookup) he.1
  | inr e ↦ rw (e, lookup) (value-IsBytes q h k)
]

keys-IsPair : (q : Values) → IsText q → All (IsPair q) (keys q)
keys-IsPair q h =
    All-map (IsPair q) (λ e. e.0) q (All-weaken (λ e he. (he.0, value-IsBytes q h e.0)) q h)

-- A server that parses an encoded query finds for every key the value that was set, and no other
-- key, whatever bytes the keys and values hold.
pub parse_query-encode :
    (q : Values)
    → IsText q
    → (seen : Values) × (parse_query (encode q) ≡ some seen)
      × ((k : Str) → lookup k seen ≡ lookup k q)
unfolding encode
parse_query-encode q h =
    let ks = sort_strings (keys q) in
    (
      map (λ k. (k, value q k)) ks,
      parse_query-join q ks (sort_strings-All (IsPair q) (keys q) (keys-IsPair q h)),
      λ k.
          lookup-map (value q) k ks
          ∙ ap (λ b. if b then some (value q k) else none) (has-sort_strings k (keys q))
          ∙ lookup-has k q,
    )
