-- ===== src/WebSocket/Handshake/Reading.antt =====
-- What websocket/HTTPProtocolParser.cpp reads from the text of a request.
use dumais_lib.Prelude.{
  ◌<◌, ◌≡◌, ℕ, refl, ap, sym, ◌∙◌, arith, Bool, false, not, ◌||◌, Bool-cases, inl, inr, Option,
  none, some, List, [], ◌∷◌, ◌++◌, Text, codes, map, length, append_assoc, append-nil, ◌==◌,
  if◌then◌else◌,
}
use dumais_lib.Json.Number.{to_lower, text_eq, text_eq_sound}
use dumais_lib.Rest.Parameters.{Values, lookup, store}
use dumais_lib.Rest.Stored.{last_value, lookup-store}
use dumais_lib.WebSocket.Handshake.{
  max_http_data, ready, HttpRequest, is_space, without_spaces, tokenize_from, tokenize,
  protocols_of, parse_incoming,
}
use dumais_lib.WebSocket.Handshake.Headers.{
  is_word_char, All, AreFields, render_request, store_fields,
}
use dumais_lib.WebSocket.Handshake.Opening.{request_of, parse_incoming-render_request}

-- The fields with their names in small letters.
unfoldable pub lowered : Values → Values
lowered [] = []
lowered ((name, value) ∷ fields) = (map to_lower name, value) ∷ lowered fields

pub lookup-store_fields :
    (fields m : Values) (k : Text)
    → lookup k (store_fields fields m) ≡ last_value k (lowered fields) (lookup k m)
unfolding store_fields lowered last_value
lookup-store_fields [] m k = refl
lookup-store_fields ((name, value) ∷ fields) m k =
    lookup-store_fields fields (store (map to_lower name) value m) k
    ∙ ap (last_value k (lowered fields)) (lookup-store (map to_lower name) value k m)

-- A character that the name of a protocol can have.
abbrev pub is_token_char : ℕ → Bool
is_token_char c = not (c == b',' || (c == 0 || is_space c))

unfoldable pub AreTokens : List Text → Type 0
AreTokens [] = Unit {0}
AreTokens (p ∷ ps) = All is_token_char p × AreTokens ps

-- The names in the value of a header.
unfoldable pub offered_text : Text → List Text → Text
offered_text p [] = p
offered_text p (q ∷ ps) = p ++ (b',' ∷ b' ' ∷ offered_text q ps)

-- The value of the header that offers protocols; there is none if none is offered.
abbrev pub offered : List Text → Option Text
offered [] = none
offered (p ∷ ps) = some (offered_text p ps)

unfoldable pub has_name : Text → List Text → Bool
unfolding text_eq
has_name k [] = false
has_name k (p ∷ ps) = text_eq p k || has_name k ps

-- The names that are stored one after the other.
unfoldable store_names : List Text → Values → Values
unfolding store
store_names [] m = m
store_names (p ∷ ps) m = store_names ps (store p p m)

lookup-store_names :
    (ps : List Text) (m : Values) (k : Text)
    → lookup k (store_names ps m) ≡ (if has_name k ps then some k else lookup k m)
unfolding store_names has_name
lookup-store_names [] m k = refl
lookup-store_names (p ∷ ps) m k =
    lookup-store_names ps (store p p m) k
    ∙ ap (λ o. if has_name k ps then some k else o) (lookup-store p p k m)
    ∙ (elim (Bool-cases (text_eq p k)) [
      | inl e ↦
          let same : some p ≡ some k = ap some (text_eq_sound p k e) in
          elim (Bool-cases (has_name k ps)) [ inl f ↦ rw (e, f) refl | inr f ↦ rw (e, f) same ]
      | inr e ↦ rw e refl
    ])

without_spaces-append :
    (s t : Text) → without_spaces (s ++ t) ≡ without_spaces s ++ without_spaces t
unfolding without_spaces
without_spaces-append [] t = refl
without_spaces-append (c ∷ s) t = elim (Bool-cases (is_space c)) [
  | inl e ↦ rw (without_spaces, e) (without_spaces-append s t)
  | inr e ↦ rw (without_spaces, e) (ap (λ u. c ∷ u) (without_spaces-append s t))
]

without_spaces-token : (p : Text) → All is_token_char p → without_spaces p ≡ p
unfolding without_spaces All
without_spaces-token [] h = refl
without_spaces-token (c ∷ p) (hc, h) =
    let e : is_space c ≡ false = ground arith in
    rw (without_spaces, e) (ap (λ u. c ∷ u) (without_spaces-token p h))

-- A name is gathered.
tokenize_from-token :
    (p token rest : Text) (list : Values)
    → All is_token_char p
    → tokenize_from b',' token (p ++ rest) list ≡ tokenize_from b',' (token ++ p) rest list
unfolding All tokenize_from
tokenize_from-token [] token rest list h =
    ap (λ t. tokenize_from b',' t rest list) (sym (append-nil token))
tokenize_from-token (c ∷ p) token rest list (hc, h) =
    let e : (c == 0) ≡ false = ground arith in
    let f : (c == b',') ≡ false = ground arith in
    rw (tokenize_from, e, f)
      (tokenize_from-token p (token ++ c ∷ []) rest list h
        ∙ ap (λ t. tokenize_from b',' t rest list) (append_assoc token (c ∷ []) p))

gathered :
    (token p : Text)
    → without_spaces token ≡ []
    → All is_token_char p
    → without_spaces (token ++ p) ≡ p
gathered token p none_yet h =
    without_spaces-append token p
    ∙ ap (λ t. t ++ without_spaces p) none_yet
    ∙ without_spaces-token p h

tokenize_from-offered :
    (p : Text) (ps : List Text) (token : Text) (list : Values)
    → without_spaces token ≡ []
    → All is_token_char p
    → AreTokens ps
    → tokenize_from b',' token (offered_text p ps) list ≡ store_names (p ∷ ps) list
unfolding offered_text store_names AreTokens tokenize_from
tokenize_from-offered p [] token list none_yet hp h =
    ap (λ s. tokenize_from b',' token s list) (sym (append-nil p))
    ∙ tokenize_from-token p token [] list hp
    ∙ ap (λ n. store n n list) (gathered token p none_yet hp)
tokenize_from-offered p (q ∷ ps) token list none_yet hp (hq, h) =
    tokenize_from-token p token (b',' ∷ b' ' ∷ offered_text q ps) list hp
    ∙ (tokenize_from-offered q ps (b' ' ∷ [])
          (store (without_spaces (token ++ p)) (without_spaces (token ++ p)) list)
          (unfold without_spaces in refl) hq h
        ∙ ap (λ n. store_names (q ∷ ps) (store n n list)) (gathered token p none_yet hp))

pub lookup-protocols_of :
    (m : Values) (names : List Text) (k : Text)
    → AreTokens names
    → lookup (codes "sec-websocket-protocol") m ≡ offered names
    → lookup k (protocols_of m) ≡ (if has_name k names then some k else none)
unfolding AreTokens protocols_of
lookup-protocols_of m [] k h e = rw (protocols_of, e) (unfold has_name in unfold lookup in refl)
lookup-protocols_of m (p ∷ ps) k (hp, h) e =
    rw (protocols_of, e)
      (ap (lookup k)
          (unfold tokenize in tokenize_from-offered p ps [] [] (unfold without_spaces in refl) hp h)
        ∙ (lookup-store_names (p ∷ ps) [] k ∙ (unfold lookup in refl)))

-- What is read from a request that offers the protocols `names`.
pub record IsRead (type resource : Text) (fields : Values) (names : List Text) (q : HttpRequest)
    : Type 0 where
  pub comes_ready : q.status ≡ ready
  pub has_type : q.type ≡ type
  pub has_resource : q.resource ≡ resource
  pub has_headers : (k : Text) → lookup k q.headers ≡ last_value k (lowered fields) none
  pub has_protocols :
      (k : Text) → lookup k q.protocols ≡ (if has_name k names then some k else none)

request_of-IsRead :
    (type resource : Text) (fields : Values) (names : List Text)
    → AreTokens names
    → last_value (codes "sec-websocket-protocol") (lowered fields) none ≡ offered names
    → IsRead type resource fields names (request_of type resource fields)
unfolding lookup
request_of-IsRead type resource fields names h offers = record {
  comes_ready = refl;
  has_type = refl;
  has_resource = refl;
  has_headers = λ k. lookup-store_fields fields [] k;
  has_protocols = λ k.
      lookup-protocols_of (store_fields fields []) names k h
        (lookup-store_fields fields [] (codes "sec-websocket-protocol") ∙ offers);
}

-- The parser reads from a request's text its type, its resource, under each name in small
-- letters the value of the last header of that name, and the protocols that the last header for
-- protocols names, and is empty again. Type and resource have no space and no line break; header
-- names are not empty and have no colon and no line break, values start with another character
-- than a space and have no line break; the names of the protocols have no comma, no white space
-- and no NUL and stand in their header with a comma and a space between them; the text has less
-- than 1024 bytes.
pub parse_incoming-IsRead :
    (type resource : Text) (fields : Values) (names : List Text)
    → All is_word_char type
    → All is_word_char resource
    → AreFields fields
    → length (render_request type resource fields) < max_http_data
    → AreTokens names
    → last_value (codes "sec-websocket-protocol") (lowered fields) none ≡ offered names
    → IsRead type resource fields names
        (parse_incoming (record { stored = [] }) (render_request type resource fields)).0
      × ((parse_incoming (record { stored = [] }) (render_request type resource fields)).1
          ≡ record { stored = [] })
parse_incoming-IsRead type resource fields names ht hr hf small hn offers =
    let run = parse_incoming-render_request type resource fields ht hr hf small in
    rw run (request_of-IsRead type resource fields names hn offers, refl)
