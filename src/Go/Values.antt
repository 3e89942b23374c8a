-- ===== src/Go/Values.antt =====
-- The `Values` of net/url: query parameters by key. The client adds to them by `Set` alone, so a key
-- has one value and the map is a list of pairs with distinct keys, in no order that matters.
pub mod Laws
use firezone_go.Prelude.{
  true, false, List, [], ◌∷◌, ◌++◌, Option, none, some, Str, codes, str_eq, if◌then◌else◌, map, ◌≡◌,
  refl,
}
use firezone_go.Go.Escape.{query_component, escape}
use firezone_go.Go.Strings.{join}
use firezone_go.Go.Sort.{sort_strings}

abbrev pub Values : Type 0
Values = List (Str × Str)

unfoldable pub set : Str → Str → Values → Values
set k v [] = (k, v) ∷ []
set k v ((j, w) ∷ q) = if str_eq j k then (k, v) ∷ q else (j, w) ∷ set k v q

-- Whether a key has a value, and which.
unfoldable pub lookup : Str → Values → Option Str
lookup k [] = none
lookup k ((j, w) ∷ q) = if str_eq j k then some w else lookup k q

abbrev pub value_or_empty : Option Str → Str
value_or_empty none = []
value_or_empty (some v) = v

abbrev pub keys : Values → List Str
keys = map (λ e. e.0)

unfoldable pub encode_pair : Str → Str → Str
encode_pair k v = escape query_component k ++ (codes "=" ++ escape query_component v)

-- `Encode`: the pairs in the order of their keys, joined by '&'.
unfoldable pub encode : Values → Str
unfolding encode_pair
encode q =
    join (map (λ k. encode_pair k (value_or_empty (lookup k q))) (sort_strings (keys q)))
      (codes "&")

encoded :
    encode (set (codes "name") (codes "a b&c") (set (codes "limit") (codes "10") []))
    ≡ codes "limit=10&name=a+b%26c"
unfolding encode set lookup sort_strings join escape
encoded = refl
