-- ===== src/Errors/Message.antt =====
-- The text of an APIError, and that it does not depend on the order in which a map is visited.
use mathlib.Core.List.{Perm, Permᴰ}
use mathlib.Core.Logic.{∥∥₁_elim}
use mathlib.Core.Path.{subst, fun_ext}
use firezone_go.Prelude.{
  Bool, true, false, List, [], ◌∷◌, ◌++◌, Str, codes, str_eq, str_eq_iff, if◌then◌else◌, map, ◌≡◌,
  ◌≢◌, refl, ap, sym, ◌∙◌, arith, All,
}
use firezone_go.Prelude.Int.{pos}
use firezone_go.Errors.{ApiError}
use firezone_go.Go.Sort.{sort_strings}
use firezone_go.Go.Sort.Laws.{sort_strings-Permᴰ}
use firezone_go.Go.Strconv.{itoa}
use firezone_go.Go.Strings.{join}

-- A map in the order in which a loop visits it.
abbrev pub FieldErrors : Type 0
FieldErrors = List (Str × List Str)

-- `errs[field]`, nil for a key that is not there.
unfoldable pub messages : FieldErrors → Str → List Str
messages [] f = []
messages ((g, ms) ∷ errs) f = if str_eq g f then ms else messages errs f

abbrev pub field_names : FieldErrors → List Str
field_names = map (λ e. e.0)

abbrev pub format_part : FieldErrors → Str → Str
format_part errs f = f ++ (codes ": " ++ join (messages errs f) (codes ", "))

unfoldable pub format_validation_errors : FieldErrors → Str
unfolding messages
format_validation_errors errs =
    join (map (format_part errs) (sort_strings (field_names errs))) (codes "; ")

abbrev is_empty : FieldErrors → Bool
is_empty [] = true
is_empty (_ ∷ _) = false

unfoldable pub error_text : ApiError → Str
unfolding format_validation_errors
error_text e =
    let head = codes "firezone: " ++ (itoa (pos e.status_code) ++ (codes " " ++ e.title)) in
    let detailed = if str_eq e.detail (codes "") then head else head ++ (codes ": " ++ e.detail) in
    if is_empty e.validation_errors
    then detailed
    else detailed ++ (codes " (" ++ (format_validation_errors e.validation_errors ++ codes ")"))

-- A map has one entry for a key.
abbrev pub LacksField : Str → FieldErrors → Type 0
LacksField f = All (λ e. e.0 ≢ f)

abbrev pub IsMap : FieldErrors → Type 0
IsMap [] = Unit
IsMap ((f, ms) ∷ errs) = LacksField f errs × IsMap errs

field_names-Permᴰ : {m n : FieldErrors} → Permᴰ m n → Permᴰ (field_names m) (field_names n)
field_names-Permᴰ Permᴰ.nil = Permᴰ.nil
field_names-Permᴰ (Permᴰ.cons e p) = Permᴰ.cons (ap (λ z. z.0) e) (field_names-Permᴰ p)
field_names-Permᴰ (Permᴰ.swap e f) = Permᴰ.swap (ap (λ z. z.0) e) (ap (λ z. z.0) f)
field_names-Permᴰ (Permᴰ.trans p q) = Permᴰ.trans (field_names-Permᴰ p) (field_names-Permᴰ q)

LacksField-Permᴰ : (f : Str) {m n : FieldErrors} → Permᴰ m n → LacksField f m → LacksField f n
LacksField-Permᴰ f Permᴰ.nil h = h
LacksField-Permᴰ f (Permᴰ.cons e p) (h, hs) = (subst (λ z. z.0 ≢ f) e h, LacksField-Permᴰ f p hs)
LacksField-Permᴰ f (Permᴰ.swap e g) (h, (k, hs)) =
    (subst (λ z. z.0 ≢ f) g k, (subst (λ z. z.0 ≢ f) e h, hs))
LacksField-Permᴰ f (Permᴰ.trans p q) h = LacksField-Permᴰ f q (LacksField-Permᴰ f p h)

pub IsMap-Permᴰ : {m n : FieldErrors} → Permᴰ m n → IsMap m → IsMap n
IsMap-Permᴰ Permᴰ.nil h = h
IsMap-Permᴰ (Permᴰ.cons {l₂ = l₂} e p) (h, hs) =
    (subst (λ z. LacksField z.0 l₂) e (LacksField-Permᴰ _ p h), IsMap-Permᴰ p hs)
IsMap-Permᴰ (Permᴰ.swap {a = x} {b = y} {a' = x'} {b' = y'} {l = l} e g) ((ne, hx), (hy, hs)) = (
  (
    subst (λ z. z.0 ≢ x'.0) e (subst (λ z. x.0 ≢ z.0) g (λ same. ne (sym same))),
    subst (λ z. LacksField z.0 l) g hy,
  ),
  (subst (λ z. LacksField z.0 l) e hx, hs),
)
IsMap-Permᴰ (Permᴰ.trans p q) h = IsMap-Permᴰ q (IsMap-Permᴰ p h)

messages_swap :
    (x y : Str × List Str) (l : FieldErrors) (f : Str)
    → y.0 ≢ x.0
    → messages (x ∷ y ∷ l) f ≡ messages (y ∷ x ∷ l) f
unfolding messages
messages_swap (g, ms) (h, ns) l f ne = ground (arith, str_eq_iff g f, str_eq_iff h f)

messages_cons :
    (x : Str × List Str) (m n : FieldErrors) (f : Str)
    → messages m f ≡ messages n f
    → messages (x ∷ m) f ≡ messages (x ∷ n) f
unfolding messages
messages_cons (g, ms) m n f e = ground arith

messages-Permᴰ :
    {m n : FieldErrors} (p : Permᴰ m n) (f : Str) → IsMap m → messages m f ≡ messages n f
messages-Permᴰ Permᴰ.nil f h = refl
messages-Permᴰ (Permᴰ.cons {a = x} {l₁ = l₁} {l₂ = l₂} e p) f (h, hs) =
    messages_cons x l₁ l₂ f (messages-Permᴰ p f hs) ∙ ap (λ z. messages (z ∷ l₂) f) e
messages-Permᴰ (Permᴰ.swap {a = x} {b = y} {a' = x'} {l = l} e g) f ((ne, _), _) =
    messages_swap x y l f ne
    ∙ ap (λ z. messages (z ∷ x ∷ l) f) g
    ∙ ap (λ z. messages (x' ∷ z ∷ l) f) e
messages-Permᴰ (Permᴰ.trans p q) f h = messages-Permᴰ p f h ∙ messages-Permᴰ q f (IsMap-Permᴰ p h)

format-Permᴰ :
    {m n : FieldErrors}
    → Permᴰ m n
    → IsMap m
    → format_validation_errors m ≡ format_validation_errors n
unfolding format_validation_errors
format-Permᴰ {m} {n} p h =
    let ks = sort_strings (field_names n) in
    ap (λ names. join (map (format_part m) names) (codes "; "))
      (sort_strings-Permᴰ (field_names-Permᴰ p))
    ∙ ap (λ g. join (map g ks) (codes "; "))
        (fun_ext (λ f. ap (λ ms. f ++ (codes ": " ++ join ms (codes ", "))) (messages-Permᴰ p f h)))

is_empty-Permᴰ : {m n : FieldErrors} → Permᴰ m n → is_empty m ≡ is_empty n
is_empty-Permᴰ Permᴰ.nil = refl
is_empty-Permᴰ (Permᴰ.cons e p) = refl
is_empty-Permᴰ (Permᴰ.swap e g) = refl
is_empty-Permᴰ (Permᴰ.trans p q) = is_empty-Permᴰ p ∙ is_empty-Permᴰ q

Str-set : IsSet Str
Str-set = hlevel

-- The text of an error is the same for every order in which Go may visit the map of validation
-- errors.
pub error_text-Perm :
    (e : ApiError) (m n : FieldErrors)
    → IsMap m
    → Perm m n
    → error_text (record e { validation_errors = m })
      ≡ error_text (record e { validation_errors = n })
unfolding error_text
error_text-Perm e m n h p = ∥∥₁_elim p (Str-set _ _) (λ d. cc (is_empty-Permᴰ d, format-Permᴰ d h))
