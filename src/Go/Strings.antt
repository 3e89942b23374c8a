-- ===== src/Go/Strings.antt =====
-- strings.Join, strings.TrimSuffix, and strings.Split at a single byte.
pub mod Laws
use firezone_go.Prelude.{ℕ, true, false, List, [], ◌∷◌, ◌++◌, Str, str_eq, ◌==◌, if◌then◌else◌}

unfoldable pub join : List Str → Str → Str
join [] sep = []
join (x ∷ []) sep = x
join (x ∷ y ∷ xs) sep = x ++ (sep ++ join (y ∷ xs) sep)

-- `TrimSuffix(s, t)`
unfoldable pub trim_suffix : Str → Str → Str
trim_suffix [] t = []
trim_suffix (c ∷ s) t = let rest = c ∷ trim_suffix s t in if str_eq (c ∷ s) t then [] else rest

-- The second argument is the part so far.
unfoldable pub split_from : ℕ → Str → Str → List Str
split_from sep cur [] = cur ∷ []
split_from sep cur (c ∷ s) = elim (c == sep) [
  | true ↦ cur ∷ split_from sep [] s
  | false ↦ split_from sep (cur ++ c ∷ []) s
]

unfoldable pub split : Str → ℕ → List Str
unfolding split_from
split s sep = split_from sep [] s
