-- ===== src/Go/StatusText.antt =====
-- http.StatusText: the reason phrase of a status code, "" for an unknown one.
use firezone_go.Prelude.{
  ℕ, List, [], ◌∷◌, Str, codes, ◌==◌, if◌then◌else◌, ◌≡◌, refl, ◌<◌, All, Bool-cases, inl, inr,
  arith,
}
use Prim.Native.String.{String}

abbrev phrases : List (ℕ × String)
phrases =
    (100, "Continue")
    ∷ (101, "Switching Protocols")
    ∷ (102, "Processing")
    ∷ (103, "Early Hints")
    ∷ (200, "OK")
    ∷ (201, "Created")
    ∷ (202, "Accepted")
    ∷ (203, "Non-Authoritative Information")
    ∷ (204, "No Content")
    ∷ (205, "Reset Content")
    ∷ (206, "Partial Content")
    ∷ (207, "Multi-Status")
    ∷ (208, "Already Reported")
    ∷ (226, "IM Used")
    ∷ (300, "Multiple Choices")
    ∷ (301, "Moved Permanently")
    ∷ (302, "Found")
    ∷ (303, "See Other")
    ∷ (304, "Not Modified")
    ∷ (305, "Use Proxy")
    ∷ (307, "Temporary Redirect")
    ∷ (308, "Permanent Redirect")
    ∷ (400, "Bad Request")
    ∷ (401, "Unauthorized")
    ∷ (402, "Payment Required")
    ∷ (403, "Forbidden")
    ∷ (404, "Not Found")
    ∷ (405, "Method Not Allowed")
    ∷ (406, "Not Acceptable")
    ∷ (407, "Proxy Authentication Required")
    ∷ (408, "Request Timeout")
    ∷ (409, "Conflict")
    ∷ (410, "Gone")
    ∷ (411, "Length Required")
    ∷ (412, "Precondition Failed")
    ∷ (413, "Request Entity Too Large")
    ∷ (414, "Request URI Too Long")
    ∷ (415, "Unsupported Media Type")
    ∷ (416, "Requested Range Not Satisfiable")
    ∷ (417, "Expectation Failed")
    ∷ (418, "I'm a teapot")
    ∷ (421, "Misdirected Request")
    ∷ (422, "Unprocessable Entity")
    ∷ (423, "Locked")
    ∷ (424, "Failed Dependency")
    ∷ (425, "Too Early")
    ∷ (426, "Upgrade Required")
    ∷ (428, "Precondition Required")
    ∷ (429, "Too Many Requests")
    ∷ (431, "Request Header Fields Too Large")
    ∷ (451, "Unavailable For Legal Reasons")
    ∷ (500, "Internal Server Error")
    ∷ (501, "Not Implemented")
    ∷ (502, "Bad Gateway")
    ∷ (503, "Service Unavailable")
    ∷ (504, "Gateway Timeout")
    ∷ (505, "HTTP Version Not Supported")
    ∷ (506, "Variant Also Negotiates")
    ∷ (507, "Insufficient Storage")
    ∷ (508, "Loop Detected")
    ∷ (510, "Not Extended")
    ∷ (511, "Network Authentication Required")
    ∷ []

phrase_in : List (ℕ × String) → ℕ → Str
phrase_in [] n = []
phrase_in ((k, s) ∷ rest) n = if k == n then codes s else phrase_in rest n

unfoldable pub status_text : ℕ → Str
unfolding phrase_in
status_text n = phrase_in phrases n

not_found_text : status_text 404 ≡ codes "Not Found"
unfolding status_text
not_found_text = refl

phrases-ascii : All (λ p. All (λ c. c < 128) (codes p.1)) phrases
phrases-ascii = ground arith

phrase_in-ascii :
    (ps : List (ℕ × String)) (n : ℕ)
    → All (λ p. All (λ c. c < 128) (codes p.1)) ps
    → All (λ c. c < 128) (phrase_in ps n)
unfolding phrase_in
phrase_in-ascii [] n h = tt
phrase_in-ascii ((k, s) ∷ rest) n (hs, h) = elim (Bool-cases (k == n)) [
  | inl e ↦ rw e hs
  | inr e ↦ rw e (phrase_in-ascii rest n h)
]

-- Every reason phrase is ASCII.
pub status_text-ascii : (n : ℕ) → All (λ c. c < 128) (status_text n)
unfolding status_text
status_text-ascii n = phrase_in-ascii phrases n phrases-ascii
