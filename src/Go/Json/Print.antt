-- ===== src/Go/Json/Print.antt =====
-- json.Marshal: the text of a value, with `<`, `>` and `&` escaped as its default does.
use firezone_go.Prelude.{
  ℕ, ◌/◌, ◌%◌, ◌+◌, true, false, ◌||◌, [], ◌∷◌, ◌++◌, Str, codes, ltb, ◌==◌, if◌then◌else◌, ◌≡◌,
  refl,
}
use firezone_go.Go.Json.{Json, null, bool, num, str, arr, obj, Items, nil, cons, Fields, end, field}

unfoldable pub lower_hex : ℕ → ℕ
lower_hex n = if ltb n 10 then b'0' + n else b'W' + n

-- One byte of a string.
unfoldable pub quote_byte : ℕ → Str
unfolding lower_hex
quote_byte c =
    if c == b'"' || c == b'\\'
    then b'\\' ∷ c ∷ []
    else if c == 8
    then codes "\\b"
    else if c == 12
    then codes "\\f"
    else if c == 10
    then codes "\\n"
    else if c == 13
    then codes "\\r"
    else if c == 9
    then codes "\\t"
    else if ltb c 32 || (c == b'<' || (c == b'>' || c == b'&'))
    then b'\\' ∷ b'u' ∷ b'0' ∷ b'0' ∷ lower_hex (c / 16) ∷ lower_hex (c % 16) ∷ []
    else c ∷ []

unfoldable pub quote_bytes : Str → Str
unfolding quote_byte
quote_bytes [] = []
quote_bytes (c ∷ s) = quote_byte c ++ quote_bytes s

unfoldable pub quote : Str → Str
unfolding quote_bytes
quote s = b'"' ∷ (quote_bytes s ++ b'"' ∷ [])

unfoldable mutual
  unfolding quote

  pub print : Json → Str
  print null = codes "null"
  print (bool true) = codes "true"
  print (bool false) = codes "false"
  print (num s) = s
  print (str s) = quote s
  print (arr xs) = b'[' ∷ print_items xs
  print (obj fs) = b'{' ∷ print_fields fs

  -- The items behind an opening bracket, and the closing one.
  pub print_items : Items → Str
  print_items nil = b']' ∷ []
  print_items (cons v vs) = print v ++ print_more vs

  pub print_more : Items → Str
  print_more nil = b']' ∷ []
  print_more (cons v vs) = b',' ∷ (print v ++ print_more vs)

  pub print_fields : Fields → Str
  print_fields end = b'}' ∷ []
  print_fields (field k v fs) = quote k ++ (b':' ∷ (print v ++ print_rest fs))

  pub print_rest : Fields → Str
  print_rest end = b'}' ∷ []
  print_rest (field k v fs) = b',' ∷ (quote k ++ (b':' ∷ (print v ++ print_rest fs)))

site_body :
    print (obj (field (codes "site") (obj (field (codes "name") (str (codes "a<b")) end)) end))
    ≡ codes "{\"site\":{\"name\":\"a\\u003cb\"}}"
unfolding print
site_body = refl
