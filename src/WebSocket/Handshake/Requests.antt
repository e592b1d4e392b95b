-- ===== src/WebSocket/Handshake/Requests.antt =====
-- The buffer of websocket/HTTPProtocolParser.cpp.
use dumais_lib.Prelude.{
  ℕ, ◌<◌, ◌≡◌, refl, ap, sym, subst, ◌∙◌, arith, false, Bool-cases, inl, inr, Option, none, some,
  [], ◌++◌, Text, append_assoc, length, length-append, leb, if◌then◌else◌,
}
use dumais_lib.WebSocket.Handshake.{
  max_http_data, incomplete, ready, HttpRequest, HttpParser, end_of_header, no_request, is_ready,
  parse_request, parse_incoming,
}

-- The answer for the whole data, once it is known whether it has the end of a header.
answer_of : Text → Option ℕ → HttpRequest × HttpParser
answer_of all o = elim o [
  | none ↦ (no_request incomplete, record { stored = all })
  | some n ↦
      let req = parse_request all n in
      (req, record { stored = if is_ready req.status then [] else all })
]

parse_incoming-answer :
    (parser : HttpParser) (buffer : Text)
    → length (parser.stored ++ buffer) < max_http_data
    → parse_incoming parser buffer
      ≡ answer_of (parser.stored ++ buffer) (end_of_header (parser.stored ++ buffer))
unfolding parse_incoming answer_of
parse_incoming-answer parser buffer h =
    let e : leb max_http_data (length (parser.stored ++ buffer)) ≡ false = ground arith in rw e refl

pub parse_incoming-whole :
    (parser : HttpParser) (buffer : Text) (n : ℕ)
    → length (parser.stored ++ buffer) < max_http_data
    → end_of_header (parser.stored ++ buffer) ≡ some n
    → (parse_request (parser.stored ++ buffer) n).status ≡ ready
    → parse_incoming parser buffer
      ≡ (parse_request (parser.stored ++ buffer) n, record { stored = [] })
unfolding answer_of
parse_incoming-whole parser buffer n h found is =
    parse_incoming-answer parser buffer h ∙ rw found (rw is refl)

answer_of-lt :
    (all : Text) (o : Option ℕ)
    → length all < max_http_data
    → length (answer_of all o).1.stored < max_http_data
unfolding answer_of
answer_of-lt all none h = h
answer_of-lt all (some n) h = elim (Bool-cases (is_ready (parse_request all n).status)) [
  | inl e ↦ rw e (omega arith)
  | inr e ↦ rw e h
]

-- The parser of the handshake never stores as many as 1024 bytes, whatever it is given, if it
-- did not before.
pub parse_incoming-lt :
    (parser : HttpParser) (buffer : Text)
    → length parser.stored < max_http_data
    → length (parse_incoming parser buffer).1.stored < max_http_data
unfolding parse_incoming
parse_incoming-lt parser buffer h =
    elim (Bool-cases (leb max_http_data (length (parser.stored ++ buffer)))) [
      | inl e ↦ rw e h
      | inr e ↦
          let small : length (parser.stored ++ buffer) < max_http_data = ground arith in
          subst (λ r. length r.1.stored < max_http_data)
            (sym (parse_incoming-answer parser buffer small))
            (answer_of-lt (parser.stored ++ buffer) _ small)
    ]

-- A request that comes in two parts is read as if it came at once: if the first part does not
-- have the end of the header, it is answered as incomplete, and the second part then gives what
-- both together give. Together with what is stored they have less than 1024 bytes.
pub parse_incoming-append :
    (parser : HttpParser) (a b : Text)
    → length (parser.stored ++ (a ++ b)) < max_http_data
    → end_of_header (parser.stored ++ a) ≡ none
    → ((parse_incoming parser a).0 ≡ no_request incomplete)
      × (parse_incoming (parse_incoming parser a).1 b ≡ parse_incoming parser (a ++ b))
unfolding answer_of
parse_incoming-append parser a b h open_still =
    let small : length (parser.stored ++ a) < max_http_data = omega (
      arith,
      length-append parser.stored (a ++ b),
      length-append parser.stored a,
      length-append a b,
    ) in
    let first : parse_incoming parser a
        ≡ (no_request incomplete, record { stored = parser.stored ++ a }) =
      parse_incoming-answer parser a small ∙ ap (answer_of (parser.stored ++ a)) open_still in
    let same : (parser.stored ++ a) ++ b ≡ parser.stored ++ (a ++ b) =
      append_assoc parser.stored a b in
    (
      ap (λ r. r.0) first,
      ap (λ r. parse_incoming r.1 b) first
          ∙ (parse_incoming-answer (record { stored = parser.stored ++ a }) b
                (subst (λ s. length s < max_http_data) (sym same) h)
              ∙ (ap (λ s. answer_of s (end_of_header s)) same
                  ∙ sym (parse_incoming-answer parser (a ++ b) h))),
    )
