-- ===== src/Go/Strings/Laws.antt =====
-- Splitting a joined text gives the parts back.
use mathlib.Core.List.{append_assoc, append-nil}
use firezone_go.Prelude.{
  ℕ, List, [], ◌∷◌, ◌++◌, Str, ◌==◌, ◌≡◌, ◌≢◌, ap, ◌∙◌, arith, All, Bool-cases, inl, inr,
}
use firezone_go.Go.Strings.{join, split_from, split}

abbrev pub Lacks : ℕ → Str → Type 0
Lacks sep = All (λ c. c ≢ sep)

module _ (sep : ℕ) where
  split_from-last : (s cur : Str) → Lacks sep s → split_from sep cur s ≡ (cur ++ s) ∷ []
  unfolding split_from
  split_from-last [] cur _ = rw append-nil
  split_from-last (c ∷ s) cur (hc, hs) = elim (Bool-cases (c == sep)) [
    | inl e ↦ absurd (hc (ground arith))
    | inr e ↦ rw (e, split_from, split_from-last s (cur ++ c ∷ []) hs, append_assoc)
  ]

  split_from-sep :
      (s cur rest : Str)
      → Lacks sep s
      → split_from sep cur (s ++ sep ∷ rest) ≡ (cur ++ s) ∷ split_from sep [] rest
  unfolding split_from
  split_from-sep [] cur rest _ = elim (Bool-cases (sep == sep)) [
    | inl e ↦ rw (e, split_from, append-nil)
    | inr e ↦ absurd (ground arith)
  ]
  split_from-sep (c ∷ s) cur rest (hc, hs) = elim (Bool-cases (c == sep)) [
    | inl e ↦ absurd (hc (ground arith))
    | inr e ↦ rw (e, split_from, split_from-sep s (cur ++ c ∷ []) rest hs, append_assoc)
  ]

  split_part : (s : Str) → Lacks sep s → split s sep ≡ s ∷ []
  unfolding split
  split_part s h = split_from-last s [] h

  split_first : (s rest : Str) → Lacks sep s → split (s ++ sep ∷ rest) sep ≡ s ∷ split rest sep
  unfolding split
  split_first s rest h = split_from-sep s [] rest h

  pub split-join :
      (x : Str) (xs : List Str)
      → All (Lacks sep) (x ∷ xs)
      → split (join (x ∷ xs) (sep ∷ [])) sep ≡ x ∷ xs
  unfolding join
  split-join x [] (hx, _) = split_part x hx
  split-join x (y ∷ ys) (hx, hs) = split_first x _ hx ∙ ap (λ t. x ∷ t) (split-join y ys hs)
