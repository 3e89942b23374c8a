-- ===== src/Go/Sort.antt =====
-- sort.Strings: strings in increasing order of their bytes.
pub mod Laws
use firezone_go.Prelude.{
  Bool, true, false, ◌||◌, ◌&&◌, List, [], ◌∷◌, Str, codes, ltb, ◌==◌, if◌then◌else◌, ◌≡◌, refl,
}

-- `s <= t`
unfoldable pub str_leb : Str → Str → Bool
str_leb [] t = true
str_leb (c ∷ s) [] = false
str_leb (c ∷ s) (d ∷ t) = ltb c d || c == d && str_leb s t

unfoldable pub insert_sorted : Str → List Str → List Str
unfolding str_leb
insert_sorted x [] = x ∷ []
insert_sorted x (y ∷ ys) = if str_leb x y then x ∷ y ∷ ys else y ∷ insert_sorted x ys

unfoldable pub sort_strings : List Str → List Str
unfolding insert_sorted
sort_strings [] = []
sort_strings (x ∷ xs) = insert_sorted x (sort_strings xs)

sorted :
    sort_strings (codes "name" ∷ codes "email" ∷ codes "na" ∷ [])
    ≡ codes "email" ∷ codes "na" ∷ codes "name" ∷ []
unfolding sort_strings
sorted = refl
