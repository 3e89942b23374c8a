-- ===== src/Testutil/Writer.antt =====
-- What net/http's server sends for the handlers of internal/testutil/testutil.go.
use firezone_go.Prelude.{
  ℕ, ◌≤◌, ◌≢◌, true, ◌++◌, none, some, Str, codes, option_map, ◌≡◌, refl, arith,
}
use firezone_go.Errors.Api.{Response}
use firezone_go.Go.Json.{Json}
use firezone_go.Go.Json.Print.{print}
use firezone_go.Testutil.{
  ResponseWriter, fresh_writer, write_header, write, takes_body, response_of, json_response,
}

write_header_lem :
    (status : ℕ) (w : ResponseWriter)
    → w.status_code ≡ none
    → 200 ≤ status
    → status ≤ 999
    → write_header status w ≡ some (record w { status_code = some status })
unfolding write_header
write_header_lem status w unset low high = rw unset (ground arith)

takes_body_lem :
    (status : ℕ) → 200 ≤ status → status ≢ 204 → status ≢ 304 → takes_body status ≡ true
unfolding takes_body
takes_body_lem status low no_content not_modified = ground arith

-- A status that is written, and behind it a text.
abbrev pub written : ℕ → Str → Json → Response
written status retry_after v = record {
  status_code = status;
  retry_after = retry_after;
  body = print v ++ codes "\n";
}

-- Of a status from 200 to 999 that has a body, the response is the status and the JSON.
pub json_response_lem :
    (status : ℕ) (retry_after : Str) (v : Json)
    → 200 ≤ status
    → status ≤ 999
    → status ≢ 204
    → status ≢ 304
    → option_map response_of
        (json_response status v (record fresh_writer { retry_after = retry_after }))
      ≡ some (written status retry_after v)
unfolding json_response write
json_response_lem status retry_after v low high no_content not_modified =
    let headed : ResponseWriter = record fresh_writer {
      content_type = codes "application/json";
      retry_after = retry_after;
    } in
    rw
      (
        json_response,
        write_header_lem status headed refl low high,
        takes_body_lem status low no_content not_modified,
      )
      refl
