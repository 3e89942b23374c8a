-- ===== src/Null/Texts.antt =====
-- That nullable fields of ASCII texts are encoded to JSON that is read back.
use firezone_go.Prelude.{Option, none, some, Str, Bool-cases, inl, inr}
use firezone_go.Go.Json.{str}
use firezone_go.Go.Json.RoundTrip.{IsAscii, IsText}
use firezone_go.Go.Json.Texts.{AllOf}
use firezone_go.Null.{Null, marshal_null}

abbrev pub IsAsciiNull : Option (Null Str) → Type 0
IsAsciiNull = AllOf (λ d. IsAscii d.value)

marshal_null-IsText : (d : Null Str) → IsAscii d.value → IsText (marshal_null str d)
unfolding marshal_null IsText
marshal_null-IsText d h = elim (Bool-cases d.valid) [ inl e ↦ rw e h | inr e ↦ rw e tt ]

pub optional-IsText :
    (o : Option (Null Str)) → IsAsciiNull o → AllOf (λ d. IsText (marshal_null str d)) o
optional-IsText none h = tt
optional-IsText (some d) h = marshal_null-IsText d h
