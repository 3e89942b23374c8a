-- ===== src/Go/Values/Laws.antt =====
-- Looking up a key after `Set`.
use firezone_go.Prelude.{[], ◌∷◌, some, Str, str_eq, str_eq_iff, if◌then◌else◌, ◌≡◌, refl, arith}
use firezone_go.Go.Values.{Values, set, lookup}

pub lookup-set :
    (j k v : Str) (q : Values) → lookup j (set k v q) ≡ (if str_eq k j then some v else lookup j q)
unfolding lookup set
lookup-set j k v [] = refl
lookup-set j k v ((i, w) ∷ q) =
    ground (arith, lookup-set j k v q, str_eq_iff i k, str_eq_iff k j, str_eq_iff i j)
