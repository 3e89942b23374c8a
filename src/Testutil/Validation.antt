-- ===== src/Testutil/Validation.antt =====
-- That the client reads the validation error response of internal/testutil/testutil.go as it is meant.
use firezone_go.Prelude.{
  true, List, [], ◌∷◌, Option, none, some, Str, codes, ◌≡◌, refl, ap, sym, ◌∙◌, map, All, arith,
}
use firezone_go.Prelude.Int.{pos}
use firezone_go.Errors.{ApiError, api, is_validation}
use firezone_go.Errors.Api.{no_details, details_fields, parse_api_error, Response}
use firezone_go.Errors.Message.{FieldErrors, IsMap, IsMap-Permᴰ, error_text, error_text-Perm}
use firezone_go.Go.Json.{Json, null, num, str, obj, Fields, end, field, fields, items, item_list}
use firezone_go.Go.Json.Decode.{dec_string, dec_items, dec_list, dec_map, get_field, key_matches}
use firezone_go.Go.Json.Encode.{nil_array}
use firezone_go.Go.Json.RoundTrip.{IsAscii, IsText, AreFields}
use firezone_go.Go.Json.Texts.{AreMembers, AreMembers-AreFields, AllOf, nil_array-IsText}
use firezone_go.Go.StatusText.{status_text}
use firezone_go.Null.Fields.{field_list-fields}
use firezone_go.Testutil.{received, validation_error_response, field_messages_json, sort_entries}
use firezone_go.Testutil.Entries.{
  on_value, sort_entries-Permᴰ, sort_entries-All, sort_entries-map, dec_entries_in_order,
}
use firezone_go.Testutil.Responses.{parse_details-line}
use firezone_go.Testutil.Writer.{written, json_response_lem}

-- A nil slice is read as an empty one.
abbrev pub texts_of : Option (List Str) → List Str
texts_of none = []
texts_of (some xs) = xs

abbrev pub Entries : Type 0
Entries = List (Str × Option (List Str))

abbrev pub errors_of : Entries → FieldErrors
errors_of = map (on_value texts_of)

-- Keys and messages of ASCII.
abbrev pub IsAsciiEntry : Str × Option (List Str) → Type 0
IsAsciiEntry e = IsAscii e.0 × AllOf (All IsAscii) e.1

abbrev encoded : Entries → Fields
encoded m = fields (map (on_value (nil_array str)) (sort_entries m))

field_messages_json_of : (m : Entries) → field_messages_json (some m) ≡ obj (encoded m)
unfolding field_messages_json
field_messages_json_of m = ap (λ z. obj (fields z)) (sort_entries-map (nil_array str) m)

dec_texts : (xs : List Str) → dec_items dec_string [] (item_list (items (map str xs))) ≡ some xs
unfolding dec_items dec_string
dec_texts [] = refl
dec_texts (x ∷ xs) = rw (dec_texts xs) refl

dec_slice :
    (o : Option (List Str)) → dec_list dec_string [] (nil_array str o) [] ≡ some (texts_of o)
unfolding dec_list
dec_slice none = refl
dec_slice (some xs) = dec_texts xs

sorted_errors : (m : Entries) → errors_of (sort_entries m) ≡ sort_entries (errors_of m)
sorted_errors m = sym (sort_entries-map texts_of m)

dec_messages :
    (m : Entries)
    → IsMap (errors_of m)
    → dec_map (dec_list dec_string []) [] (obj (encoded m)) [] ≡ some (sort_entries (errors_of m))
unfolding dec_map
dec_messages m h =
    let kept = IsMap-Permᴰ (sort_entries-Permᴰ (errors_of m)) h in
    rw (field_list-fields (map (on_value (nil_array str)) (sort_entries m))) (
      dec_entries_in_order (dec_list dec_string []) (nil_array str) texts_of dec_slice
        (sort_entries m) [] (rw (sorted_errors m) kept))
    ∙ ap some (sorted_errors m)

entry-IsText : (m : Entries) → All IsAsciiEntry m → AreMembers (map (on_value (nil_array str)) m)
unfolding IsText
entry-IsText [] h = tt
entry-IsText ((k, o) ∷ m) ((hk, ho), h) = ((hk, nil_array-IsText str o ho), entry-IsText m h)

-- The problem with what the errors are encoded to.
abbrev problem_with : Json → Fields
problem_with errors = field (codes "detail") (str (codes "The request body failed validation.")) (
    field (codes "status") (num (codes "422")) (
      field (codes "title") (str (codes "Unprocessable Entity")) (
        field (codes "type") (str (codes "about:blank"))
          (field (codes "validation_errors") errors end))))

abbrev problem : Entries → Fields
problem m = problem_with (obj (encoded m))

problem-AreFields : (m : Entries) → All IsAsciiEntry m → AreFields (problem m)
unfolding IsText firezone_go.Go.Json.Numbers.is_number
problem-AreFields m h =
    let sorted = entry-IsText (sort_entries m) (sort_entries-All IsAsciiEntry m h) in
    (
      ground arith,
      (
        ground arith,
        (
          ground arith,
          (
            refl,
            (
              ground arith,
              (
                ground arith,
                (ground arith, (ground arith, (ground arith, (AreMembers-AreFields _ sorted, tt)))),
              ),
            ),
          ),
        ),
      ),
    )

details_of-problem :
    (m : Entries)
    → IsMap (errors_of m)
    → details_fields (problem m) no_details
      ≡ some (record {
        kind = codes "about:blank";
        title = codes "Unprocessable Entity";
        status = pos 422;
        detail = codes "The request body failed validation.";
        validation_errors = sort_entries (errors_of m);
      })
unfolding details_fields get_field key_matches dec_string
details_of-problem m h = rw (dec_messages m h) refl

-- The error that the client makes of the response, with these validation errors.
abbrev pub invalid_as : FieldErrors → ApiError
invalid_as errors = record {
  status_code = 422;
  kind = codes "about:blank";
  title = codes "Unprocessable Entity";
  detail = codes "The request body failed validation.";
  validation_errors = errors;
  retry_after = pos 0;
}

abbrev carrying : Json → Response
carrying errors = written 422 [] (obj (problem_with errors))

received_messages :
    (m : Entries)
    → received (validation_error_response (some m)) ≡ some (carrying (obj (encoded m)))
unfolding validation_error_response status_text
received_messages m =
    json_response_lem 422 [] (obj (problem_with (field_messages_json (some m)))) (omega arith)
      (omega arith) (omega arith) (omega arith)
    ∙ ap (λ v. some (carrying v)) (field_messages_json_of m)

parsed_messages :
    (m : Entries)
    → All IsAsciiEntry m
    → IsMap (errors_of m)
    → parse_api_error (carrying (obj (encoded m))) ≡ invalid_as (sort_entries (errors_of m))
unfolding parse_api_error
parsed_messages m ascii distinct =
    rw
      (parse_details-line (problem m) _ (problem-AreFields m ascii) (details_of-problem m distinct))
      refl

-- The validation error response of a map, of distinct keys and of ASCII texts, is sent, and the client
-- reads it as an APIError of status 422 that `IsValidation` tells, with the fields and messages of
-- the map in the order of the keys, a nil slice being an empty one. The text of that error is the
-- same as if the map had been kept in the order given.
pub validation_error_response_lem :
    (m : Entries)
    → All IsAsciiEntry m
    → IsMap (errors_of m)
    → (resp : Response) × (received (validation_error_response (some m)) ≡ some resp)
      × (parse_api_error resp ≡ invalid_as (sort_entries (errors_of m)))
      × (is_validation (api (parse_api_error resp)) ≡ true)
      × (error_text (parse_api_error resp) ≡ error_text (invalid_as (errors_of m)))
unfolding is_validation
validation_error_response_lem m ascii distinct =
    let parsed = parsed_messages m ascii distinct in
    (
      carrying (obj (encoded m)),
      received_messages m,
      parsed,
      ap (λ e. is_validation (api e)) parsed,
      ap error_text parsed
          ∙ sym
              (error_text-Perm (invalid_as []) _ _ distinct ∣ sort_entries-Permᴰ (errors_of m) ∣₁),
    )
