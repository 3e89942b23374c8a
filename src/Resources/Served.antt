-- ===== src/Resources/Served.antt =====
-- What the API reads of the request that changes a Resource.
use mathlib.Core.Path.{subst}
use firezone_go.Prelude.{
  ℕ, suc, ◌≤◌, ◌++◌, List, [], ◌∷◌, Option, none, some, Str, codes, option_map, ◌≡◌, ap, arith, All,
  All-append, All-weaken, IsBytes,
}
use firezone_go.Calls.Requests.{Ready, Asks, sent_body}
use firezone_go.Calls.Served.{wrap_body_served}
use firezone_go.Go.Json.{Json, str, obj, field, end}
use firezone_go.Go.Json.Encode.{nil_array, member, omit_empty}
use firezone_go.Go.Json.Parse.{parse}
use firezone_go.Go.Json.RoundTrip.{IsAscii, IsText}
use firezone_go.Go.Json.Texts.{
  AllOf, object-IsText, omit_string-AreMembers, omit_nil-AreMembers, omit_empty-AreMembers,
  nil_array-IsText,
}
use firezone_go.Http.{World, Log, Request}
use firezone_go.Null.{marshal_null}
use firezone_go.Null.Fields.{field_of, stated, three_state}
use firezone_go.Null.Texts.{IsAsciiNull, optional-IsText}
use firezone_go.Path.{check_id}
use firezone_go.Resources.{ResourcesService, update}
use firezone_go.Resources.Patch.{update_resource_request_json_lem}
use firezone_go.Resources.Requests.{one, update-Asks, sends-update}
use firezone_go.Resources.Types.{
  Filter, filter_json, UpdateResourceRequest, update_resource_request_json,
}
use firezone_go.Retry.Trace.{sends}

abbrev pub IsAsciiFilter : Filter → Type 0
IsAsciiFilter f = IsAscii f.protocol × All IsAscii f.ports

-- The texts of the request are ASCII.
pub record IsAsciiUpdate (r : UpdateResourceRequest) : Type 0 where
  pub name : IsAscii r.name
  pub type : IsAscii r.type
  pub address : IsAsciiNull r.address
  pub address_description : IsAsciiNull r.address_description
  pub ip_stack : IsAsciiNull r.ip_stack
  pub site_id : IsAsciiNull r.site_id
  pub filters : AllOf (AllOf (All IsAsciiFilter)) r.filters

str-IsText : (s : Str) → IsAscii s → IsText (str s)
unfolding IsText
str-IsText s h = h

filter-IsText : (f : Filter) → IsAsciiFilter f → IsText (filter_json f)
unfolding filter_json
filter-IsText f (protocol, ports) =
    object-IsText
      (member (codes "protocol") (str f.protocol) ++ omit_empty (codes "ports") str f.ports)
      (
        (ground arith, str-IsText f.protocol protocol),
        omit_empty-AreMembers (codes "ports") str f.ports (ground arith)
            (All-weaken str-IsText f.ports ports),
      )

filters-All : (fs : List Filter) → All IsAsciiFilter fs → All (λ f. IsText (filter_json f)) fs
filters-All [] h = tt
filters-All (f ∷ fs) (h, hs) = (filter-IsText f h, filters-All fs hs)

filters-IsText :
    (o : Option (Option (List Filter)))
    → AllOf (AllOf (All IsAsciiFilter)) o
    → AllOf (λ fs. IsText (nil_array filter_json fs)) o
filters-IsText none h = tt
filters-IsText (some none) h = nil_array-IsText filter_json none tt
filters-IsText (some (some fs)) h = nil_array-IsText filter_json (some fs) (filters-All fs h)

update_resource_request-IsText :
    (r : UpdateResourceRequest) → IsAsciiUpdate r → IsText (update_resource_request_json r)
unfolding update_resource_request_json
update_resource_request-IsText r h = object-IsText _ (
    All-append _ _ _ (omit_string-AreMembers (codes "name") r.name (ground arith) h.name) (
      All-append _ _ _ (omit_string-AreMembers (codes "type") r.type (ground arith) h.type) (
        All-append _ _ _
          (omit_nil-AreMembers (codes "address") (marshal_null str) r.address (ground arith)
            (optional-IsText r.address h.address))
          (All-append _ _ _
            (omit_nil-AreMembers (codes "address_description") (marshal_null str)
              r.address_description (ground arith)
              (optional-IsText r.address_description h.address_description))
            (All-append _ _ _
              (omit_nil-AreMembers (codes "ip_stack") (marshal_null str) r.ip_stack (ground arith)
                (optional-IsText r.ip_stack h.ip_stack))
              (All-append _ _ _
                (omit_nil-AreMembers (codes "site_id") (marshal_null str) r.site_id (ground arith)
                  (optional-IsText r.site_id h.site_id))
                (omit_nil-AreMembers (codes "filters") (nil_array filter_json) r.filters
                  (ground arith) (filters-IsText r.filters h.filters))))))))

-- Changing a Resource sends PATCH of "resources" and the ID with one body, at least once and at most
-- `n + 1` times, and once if retries are disabled, and sends nothing else, whatever is answered. The
-- body parses to an object with the one key "resource", whose value says of each field what the request
-- says: an empty string and a nil
-- pointer are left out, a cleared field is null, and all else is the value. The
-- client is ready with a budget of `n` retries, the ID is of bytes and accepted, the requests can be
-- built, and the texts of the request are ASCII.
pub update_resource_served :
    (w : World) (s : ResourcesService) (n : ℕ) (id : Str) (r : UpdateResourceRequest) (log : Log)
    → Ready w s.client n
    → IsBytes id
    → IsAsciiUpdate r
    → check_id (codes "Resource ID") id ≡ none
    → ((req : Request) → w.refusal req ≡ none)
    → (text : Str) × (v : Json) × Asks s.client n
        (codes "PATCH")
        (one id)
        none
        (some text)
        log
        (update w s id (some r) log).1
      × (suc (sends log) ≤ sends (update w s id (some r) log).1)
      × (parse text ≡ some (obj (field (codes "resource") v end)))
      × (field_of (codes "name") v ≡ stated r.name)
      × (field_of (codes "type") v ≡ stated r.type)
      × (field_of (codes "address") v ≡ three_state r.address)
      × (field_of (codes "address_description") v ≡ three_state r.address_description)
      × (field_of (codes "ip_stack") v ≡ three_state r.ip_stack)
      × (field_of (codes "site_id") v ≡ three_state r.site_id)
      × (field_of (codes "filters") v ≡ option_map (nil_array filter_json) r.filters)
update_resource_served w s n id r log ready bytes ascii accepted accepts =
    let v = update_resource_request_json r in
    let (name, type, address, description, stack, site, filters) =
      update_resource_request_json_lem r in
    let (text, wrapped, parsed) =
      wrap_body_served (codes "resource") v (ground arith)
        (update_resource_request-IsText r ascii) in
    (
      text,
      v,
      subst
          (λ b. Asks s.client n (codes "PATCH") (one id) none b log (update w s id (some r) log).1)
          (ap sent_body wrapped) (update-Asks w s n ready id bytes (some r) log),
      sends-update w s n ready id bytes r _ log accepted accepts wrapped,
      parsed,
      name,
      type,
      address,
      description,
      stack,
      site,
      filters,
    )
