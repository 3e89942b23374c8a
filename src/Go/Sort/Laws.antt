-- ===== src/Go/Sort/Laws.antt =====
-- Sorting gives the same list for every order of the input.
use mathlib.Core.List.{Permᴰ}
use firezone_go.Prelude.{true, List, [], ◌∷◌, Str, ◌≡◌, refl, ap, ◌∙◌, arith, ◌⊎◌, inl, inr}
use firezone_go.Go.Sort.{str_leb, insert_sorted, sort_strings}

str_leb_total : (s t : Str) → (str_leb s t ≡ true) ⊎ (str_leb t s ≡ true)
unfolding str_leb
str_leb_total [] t = inl refl
str_leb_total (c ∷ s) [] = inr refl
str_leb_total (c ∷ s) (d ∷ t) = ground (arith, str_leb_total s t)

str_leb_antisymm : (s t : Str) → str_leb s t ≡ true → str_leb t s ≡ true → s ≡ t
unfolding str_leb
str_leb_antisymm [] [] h k = refl
str_leb_antisymm [] (d ∷ t) h k = cc
str_leb_antisymm (c ∷ s) [] h k = cc
str_leb_antisymm (c ∷ s) (d ∷ t) h k = ground (arith, str_leb_antisymm s t)

str_leb_trans : (s t u : Str) → str_leb s t ≡ true → str_leb t u ≡ true → str_leb s u ≡ true
unfolding str_leb
str_leb_trans [] t u h k = refl
str_leb_trans (c ∷ s) [] u h k = cc
str_leb_trans (c ∷ s) (d ∷ t) [] h k = cc
str_leb_trans (c ∷ s) (d ∷ t) (e ∷ u) h k = ground (arith, str_leb_trans s t u)

-- Inserting two texts in either order gives one list.
insert_comm :
    (x y : Str) (zs : List Str)
    → insert_sorted x (insert_sorted y zs) ≡ insert_sorted y (insert_sorted x zs)
unfolding insert_sorted
insert_comm x y [] = ground (arith, str_leb_total x y, str_leb_antisymm x y)
insert_comm x y (z ∷ zs) = ground (
  arith,
  insert_comm x y zs,
  str_leb_total x y,
  str_leb_antisymm x y,
  str_leb_total x z,
  str_leb_total y z,
  str_leb_trans x y z,
  str_leb_trans y x z,
)

-- Sorting forgets the order of its input.
pub sort_strings-Permᴰ : {xs ys : List Str} → Permᴰ xs ys → sort_strings xs ≡ sort_strings ys
unfolding sort_strings
sort_strings-Permᴰ Permᴰ.nil = refl
sort_strings-Permᴰ (Permᴰ.cons {a = x} {l₂ = l₂} e p) =
    ap (insert_sorted x) (sort_strings-Permᴰ p) ∙ ap (λ z. insert_sorted z (sort_strings l₂)) e
sort_strings-Permᴰ (Permᴰ.swap {a = x} {b = y} {a' = x'} {l = l} e f) =
    insert_comm x y (sort_strings l)
    ∙ ap (λ z. insert_sorted z (insert_sorted x (sort_strings l))) f
    ∙ ap (λ z. insert_sorted x' (insert_sorted z (sort_strings l))) e
sort_strings-Permᴰ (Permᴰ.trans p q) = sort_strings-Permᴰ p ∙ sort_strings-Permᴰ q
