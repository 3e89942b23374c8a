-- ===== src/Calls/Envelope.antt =====
-- The envelope of a list response, `listEnvelope` of firezone.go, and its decoding into a page.
use firezone_go.Prelude.{List, [], Option, none, some, Str, codes}
use firezone_go.Prelude.Int.{pos}
use firezone_go.Errors.{errorf_w, external, Result, ok, err}
use firezone_go.Go.Json.{Fields}
use firezone_go.Go.Json.Decode.{
  Decoder, dec_string, dec_int, dec_list, dec_struct, get_field, unmarshal, ◌>>=◌,
}
use firezone_go.Query.{Page, PageMetadataBody, to_metadata}

pub record ListEnvelope (T : Type 0) : Type 0 where
  pub items : List T
  pub metadata : PageMetadataBody

abbrev pub no_metadata : PageMetadataBody
no_metadata = record { count = pos 0; limit = pos 0; next_page = []; prev_page = [] }

unfoldable pub metadata_fields : Fields → PageMetadataBody → Option PageMetadataBody
unfolding get_field dec_string dec_int
metadata_fields fs m = do
  count ← get_field (codes "count") dec_int fs m.count
  limit ← get_field (codes "limit") dec_int fs m.limit
  next_page ← get_field (codes "next_page") dec_string fs m.next_page
  prev_page ← get_field (codes "prev_page") dec_string fs m.prev_page
  some (record { count = count; limit = limit; next_page = next_page; prev_page = prev_page })

unfoldable pub list_envelope_fields :
    {T : Type 0} → Decoder T → T → Fields → ListEnvelope T → Option (ListEnvelope T)
unfolding metadata_fields dec_list dec_struct
list_envelope_fields d zero fs e = do
  items ← get_field (codes "data") (dec_list d zero) fs e.items
  metadata ← get_field (codes "metadata") (dec_struct metadata_fields) fs e.metadata
  some (record { items = items; metadata = metadata })

unfoldable pub decode_page : {T : Type 0} → Decoder T → T → Str → Result (Page T)
unfolding list_envelope_fields unmarshal
decode_page d zero body =
    elim (unmarshal (dec_struct (list_envelope_fields d zero))
      (record { items = []; metadata = no_metadata }) body) [
        | none ↦
            err
              (errorf_w (codes "firezone: decoding list response: %w") [] (external (codes "json")))
        | some e ↦ ok (record { items = e.items; metadata = to_metadata e.metadata })
      ]
