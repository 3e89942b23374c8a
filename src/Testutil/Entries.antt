-- ===== src/Testutil/Entries.antt =====
-- The entries of a map that an Encoder writes in order, and that a Decoder reads back.
use mathlib.Core.List.{Permᴰ, append_assoc, append-nil}
use mathlib.Core.List.Permᴰ
use mathlib.Core.Path.{subst}
use firezone_go.Prelude.{
  List, [], ◌∷◌, ◌++◌, some, Str, str_eq_of_ne, ◌≡◌, ◌≢◌, refl, ap, sym, ◌∙◌, map, All, Bool-cases,
  inl, inr,
}
use firezone_go.Errors.Message.{FieldErrors, IsMap, LacksField}
use firezone_go.Go.Json.{Json}
use firezone_go.Go.Json.Decode.{Decoder, dec_entries, set_entry}
use firezone_go.Go.Sort.{str_leb}
use firezone_go.Testutil.{insert_entry, sort_entries}

module _ {ℓ} {A : Type ℓ} where
  insert_entry-Permᴰ : (e : Str × A) (m : List (Str × A)) → Permᴰ (e ∷ m) (insert_entry e m)
  unfolding insert_entry
  insert_entry-Permᴰ e [] = Permᴰ.refl (e ∷ [])
  insert_entry-Permᴰ e (f ∷ m) = elim (Bool-cases (str_leb e.0 f.0)) [
    | inl first ↦ rw first (Permᴰ.refl (e ∷ f ∷ m))
    | inr later ↦
        rw later (Permᴰ.trans (Permᴰ.swap refl refl) (Permᴰ.cons refl (insert_entry-Permᴰ e m)))
  ]

  pub sort_entries-Permᴰ : (m : List (Str × A)) → Permᴰ m (sort_entries m)
  unfolding sort_entries
  sort_entries-Permᴰ [] = Permᴰ.nil
  sort_entries-Permᴰ (e ∷ m) =
      Permᴰ.trans (Permᴰ.cons refl (sort_entries-Permᴰ m)) (insert_entry-Permᴰ e (sort_entries m))

  insert_entry-All {κ} :
      (P : Str × A → Type κ) (e : Str × A) (m : List (Str × A))
      → P e
      → All P m
      → All P (insert_entry e m)
  unfolding insert_entry
  insert_entry-All P e [] h k = (h, tt)
  insert_entry-All P e (f ∷ m) h (hf, k) = elim (Bool-cases (str_leb e.0 f.0)) [
    | inl first ↦ rw first (h, (hf, k))
    | inr later ↦ rw later (hf, insert_entry-All P e m h k)
  ]

  pub sort_entries-All {κ} :
      (P : Str × A → Type κ) (m : List (Str × A)) → All P m → All P (sort_entries m)
  unfolding sort_entries
  sort_entries-All P [] h = tt
  sort_entries-All P (e ∷ m) (h, k) =
      insert_entry-All P e (sort_entries m) h (sort_entries-All P m k)

-- Sorting looks at the keys only.
module _ {ℓ κ} {A : Type ℓ} {B : Type κ} (f : A → B) where
  abbrev pub on_value : Str × A → Str × B
  on_value e = (e.0, f e.1)

  insert_entry-map :
      (e : Str × A) (m : List (Str × A))
      → insert_entry (on_value e) (map on_value m) ≡ map on_value (insert_entry e m)
  unfolding insert_entry
  insert_entry-map e [] = refl
  insert_entry-map e (g ∷ m) = elim (Bool-cases (str_leb e.0 g.0)) [
    | inl first ↦ rw first refl
    | inr later ↦ rw later (ap (λ z. on_value g ∷ z) (insert_entry-map e m))
  ]

  pub sort_entries-map :
      (m : List (Str × A)) → sort_entries (map on_value m) ≡ map on_value (sort_entries m)
  unfolding sort_entries
  sort_entries-map [] = refl
  sort_entries-map (e ∷ m) =
      ap (insert_entry (on_value e)) (sort_entries-map m) ∙ insert_entry-map e (sort_entries m)

set_entry_new :
    (k : Str) (v : List Str) (m : FieldErrors) → LacksField k m → set_entry k v m ≡ m ++ (k, v) ∷ []
unfolding set_entry
set_entry_new k v [] h = refl
set_entry_new k v ((j, w) ∷ m) (ne, h) =
    rw (str_eq_of_ne j k ne) (ap (λ z. (j, w) ∷ z) (set_entry_new k v m h))

IsMap-LacksField : (e : Str × List Str) (m n : FieldErrors) → IsMap (m ++ e ∷ n) → LacksField e.0 m
IsMap-LacksField e [] n h = tt
IsMap-LacksField e (f ∷ m) n (lacks, h) = (lacks_middle m lacks, IsMap-LacksField e m n h)
  where
    lacks_middle : (m : FieldErrors) → LacksField f.0 (m ++ e ∷ n) → f.0 ≢ e.0
    lacks_middle [] (ne, _) same = ne (sym same)
    lacks_middle (_ ∷ m) (_, h) same = lacks_middle m h same

-- Entries of distinct keys are added in order.
pub dec_entries_in_order :
    {A : Type 0} (d : Decoder (List Str)) (f : A → Json) (g : A → List Str)
    (decodes : (a : A) → d (f a) [] ≡ some (g a)) (m : List (Str × A)) (acc : FieldErrors)
    → IsMap (acc ++ map (on_value g) m)
    → dec_entries d [] (map (on_value f) m) acc ≡ some (acc ++ map (on_value g) m)
unfolding dec_entries
dec_entries_in_order d f g decodes [] acc h = ap some (sym (append-nil acc))
dec_entries_in_order d f g decodes ((k, a) ∷ m) acc h =
    let shift = append_assoc acc ((k, g a) ∷ []) (map (on_value g) m) in
    rw (decodes a, set_entry_new k (g a) acc (IsMap-LacksField (k, g a) acc _ h))
      (dec_entries_in_order d f g decodes m (acc ++ (k, g a) ∷ []) (subst IsMap (sym shift) h)
        ∙ ap some shift)
