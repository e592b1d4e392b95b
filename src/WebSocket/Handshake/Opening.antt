-- ===== src/WebSocket/Handshake/Opening.antt =====
-- Whole requests of clients to websocket/HTTPProtocolParser.cpp and websocket/WebSocket.cpp.
use dumais_lib.Prelude.{
  ℕ, suc, ◌<◌, ◌≡◌, refl, ap, sym, subst, ◌∙◌, arith, Bool, true, false, not, some, [], ◌∷◌, ◌++◌,
  Text, codes, append_assoc, append-nil, length, take, take-append, ◌==◌,
}
use dumais_lib.Rest.Parameters.{Values}
use dumais_lib.Rest.Engine.{split_at}
use dumais_lib.WebSocket.Handshake.{
  max_http_data, ready, HttpRequest, is_end_of_header, end_of_header, protocols_of, parse_request,
  parse_incoming,
}
use dumais_lib.WebSocket.Handshake.Requests.{parse_incoming-whole}
use dumais_lib.WebSocket.Handshake.Headers.{
  is_name_char, is_value_char, is_word_char, All, AreFields, field_lines, render_request,
  store_fields, scan_headers-fields,
}

All-weaken : (p q : ℕ → Bool) (s : Text) → ((c : ℕ) → p c ≡ true → q c ≡ true) → All p s → All q s
unfolding All
All-weaken p q [] f h = tt
All-weaken p q (c ∷ s) f (hc, h) = (f c hc, All-weaken p q s f h)

All-append : (p : ℕ → Bool) (s t : Text) → All p s → All p t → All p (s ++ t)
unfolding All
All-append p [] t h k = k
All-append p (c ∷ s) t (hc, h) k = (hc, All-append p s t h k)

-- All characters but one.
abbrev is_not : ℕ → ℕ → Bool
is_not d c = not (c == d)

split_at-first : (d : ℕ) (s t : Text) → All (is_not d) s → split_at d (s ++ d ∷ t) ≡ some (s, t)
unfolding split_at All
split_at-first d [] t h = let e : (d == d) ≡ true = ground arith in rw e refl
split_at-first d (c ∷ s) t (hc, h) =
    let e : (c == d) ≡ false = ground arith in rw (split_at, e, split_at-first d s t h) refl

not_end : (c : ℕ) (s : Text) → (c == 13) ≡ false → is_end_of_header (c ∷ s) ≡ false
not_end c [] h = refl
not_end c (d ∷ []) h = refl
not_end c (d ∷ e ∷ []) h = refl
not_end c (d ∷ e ∷ f ∷ s) h = rw h refl

end_of_header-skip :
    (c : ℕ) (s : Text) (n : ℕ)
    → is_end_of_header (c ∷ s) ≡ false
    → end_of_header s ≡ some n
    → end_of_header (c ∷ s) ≡ some (suc n)
unfolding end_of_header
end_of_header-skip c s n h e = rw (end_of_header, h, e) refl

end_of_header-plain :
    (s t : Text)
    → All (is_not 13) s
    → end_of_header t ≡ some (length t)
    → end_of_header (s ++ t) ≡ some (length (s ++ t))
unfolding All
end_of_header-plain [] t h e = e
end_of_header-plain (c ∷ s) t (hc, h) e =
    end_of_header-skip c (s ++ t) (length (s ++ t)) (not_end c (s ++ t) (ground arith))
      (end_of_header-plain s t h e)

-- The end of a line that another character than a carriage return follows.
end_of_header-line :
    (c : ℕ) (s : Text)
    → is_not 13 c ≡ true
    → end_of_header (c ∷ s) ≡ some (length (c ∷ s))
    → end_of_header (13 ∷ 10 ∷ c ∷ s) ≡ some (length (13 ∷ 10 ∷ c ∷ s))
end_of_header-line c s h e =
    end_of_header-skip 13 (10 ∷ c ∷ s) (length (10 ∷ c ∷ s)) (other s)
      (end_of_header-skip 10 (c ∷ s) (length (c ∷ s)) (not_end 10 (c ∷ s) refl) e)
  where
    other : (s : Text) → is_end_of_header (13 ∷ 10 ∷ c ∷ s) ≡ false
    other [] = refl
    other (d ∷ s) = let e : (c == 13) ≡ false = ground arith in rw e refl

end_of_header-fields :
    (fields : Values)
    → AreFields fields
    → end_of_header (13 ∷ 10 ∷ field_lines fields) ≡ some (length (13 ∷ 10 ∷ field_lines fields))
unfolding field_lines AreFields All
end_of_header-fields [] h = unfold end_of_header in refl
end_of_header-fields (([], value) ∷ fields) (((pn, named), rest), h) = absurd (cc)
end_of_header-fields ((c ∷ name, value) ∷ fields) ((((pc, pn), named), (pv, starts)), h) =
    let tail = 13 ∷ 10 ∷ field_lines fields in
    let plain : All (is_not 13) value =
      All-weaken is_value_char (is_not 13) value (λ d e. ground arith) pv in
    let of_value : end_of_header (value ++ tail) ≡ some (length (value ++ tail)) =
      end_of_header-plain value tail plain (end_of_header-fields fields h) in
    let of_name : end_of_header (c ∷ name ++ (b':' ∷ b' ' ∷ (value ++ tail)))
        ≡ some (length (c ∷ name ++ (b':' ∷ b' ' ∷ (value ++ tail)))) =
      end_of_header-plain (c ∷ name) (b':' ∷ b' ' ∷ (value ++ tail))
        (All-weaken is_name_char (is_not 13) (c ∷ name) (λ d e. ground arith) (pc, pn))
        (end_of_header-plain (b':' ∷ b' ' ∷ []) (value ++ tail) (refl, (refl, tt)) of_value) in
    end_of_header-line c (name ++ (b':' ∷ b' ' ∷ (value ++ tail))) (ground arith) of_name

-- The request's first line.
first_line : (type resource : Text) → Text
first_line type resource = type ++ (b' ' ∷ (resource ++ (codes " HTTP/1.1" ++ 13 ∷ [])))

render-first_line :
    (type resource : Text) (fields : Values)
    → render_request type resource fields ≡ first_line type resource ++ (10 ∷ field_lines fields)
unfolding render_request first_line
render-first_line type resource fields =
    let rest = 10 ∷ field_lines fields in
    sym (
      append_assoc type (b' ' ∷ (resource ++ (codes " HTTP/1.1" ++ 13 ∷ []))) rest
      ∙ ap (λ s. type ++ (b' ' ∷ s)) (append_assoc resource (codes " HTTP/1.1" ++ 13 ∷ []) rest))

-- A first line has no character that a word has not, but those that stand there.
first_line-All :
    (p : ℕ → Bool) (type resource : Text)
    → ((c : ℕ) → is_word_char c ≡ true → p c ≡ true)
    → All p (b' ' ∷ [])
    → All p (codes " HTTP/1.1" ++ 13 ∷ [])
    → All is_word_char type
    → All is_word_char resource
    → All p (first_line type resource)
unfolding first_line All
first_line-All p type resource f space version ht hr =
    All-append p type _ (All-weaken is_word_char p type f ht)
      (space.0, All-append p resource _ (All-weaken is_word_char p resource f hr) version)

-- The same, up to the end of the line.
words-All :
    (p : ℕ → Bool) (type resource : Text)
    → ((c : ℕ) → is_word_char c ≡ true → p c ≡ true)
    → All p (b' ' ∷ [])
    → All p (codes " HTTP/1.1")
    → All is_word_char type
    → All is_word_char resource
    → All p (type ++ (b' ' ∷ (resource ++ codes " HTTP/1.1")))
unfolding All
words-All p type resource f space version ht hr =
    All-append p type _ (All-weaken is_word_char p type f ht)
      (space.0, All-append p resource _ (All-weaken is_word_char p resource f hr) version)

render-words :
    (type resource : Text) (fields : Values)
    → render_request type resource fields
      ≡ (type ++ (b' ' ∷ (resource ++ codes " HTTP/1.1"))) ++ (13 ∷ 10 ∷ field_lines fields)
unfolding render_request
render-words type resource fields =
    let rest = 13 ∷ 10 ∷ field_lines fields in
    sym (
      append_assoc type (b' ' ∷ (resource ++ codes " HTTP/1.1")) rest
      ∙ ap (λ s. type ++ (b' ' ∷ s)) (append_assoc resource (codes " HTTP/1.1") rest))

render-end :
    (type resource : Text) (fields : Values)
    → All is_word_char type
    → All is_word_char resource
    → AreFields fields
    → end_of_header (render_request type resource fields)
      ≡ some (length (render_request type resource fields))
unfolding All
render-end type resource fields ht hr hf =
    subst (λ s. end_of_header s ≡ some (length s)) (sym (render-words type resource fields))
      (end_of_header-plain (type ++ (b' ' ∷ (resource ++ codes " HTTP/1.1"))) _
        (words-All (is_not 13) type resource (λ c e. ground arith) (refl, tt)
          (refl, (refl, (refl, (refl, (refl, (refl, (refl, (refl, (refl, tt))))))))) ht hr)
        (end_of_header-fields fields hf))

take-all : (s : Text) → take (length s) s ≡ s
take-all s = ap (take (length s)) (sym (append-nil s)) ∙ take-append s []

-- What a request says.
abbrev pub request_of : (type resource : Text) → Values → HttpRequest
request_of type resource fields = record {
  status = ready;
  type = type;
  resource = resource;
  headers = store_fields fields [];
  protocols = protocols_of (store_fields fields []);
}

parse_request-render :
    (type resource : Text) (fields : Values)
    → All is_word_char type
    → All is_word_char resource
    → AreFields fields
    → parse_request
        (render_request type resource fields)
        (length (render_request type resource fields))
      ≡ request_of type resource fields
unfolding parse_request All
parse_request-render type resource fields ht hr hf =
    let all = render_request type resource fields in
    let tail = codes "HTTP/1.1" ++ (13 ∷ 10 ∷ field_lines fields) in
    let one : split_at b' ' all ≡ some (type, resource ++ (b' ' ∷ tail)) =
      unfold render_request in
      split_at-first b' ' type (resource ++ (b' ' ∷ tail))
        (All-weaken is_word_char (is_not b' ') type (λ c e. ground arith) ht) in
    let two : split_at b' ' (resource ++ (b' ' ∷ tail)) ≡ some (resource, tail) =
      split_at-first b' ' resource tail
        (All-weaken is_word_char (is_not b' ') resource (λ c e. ground arith) hr) in
    let three : split_at 10 (take (length all) all)
        ≡ some (first_line type resource, field_lines fields) =
      ap (split_at 10) (take-all all ∙ render-first_line type resource fields)
      ∙ split_at-first 10 (first_line type resource) (field_lines fields) (
          first_line-All (is_not 10) type resource (λ c e. ground arith) (refl, tt)
            (refl, (refl, (refl, (refl, (refl, (refl, (refl, (refl, (refl, (refl, tt)))))))))) ht
            hr) in
    rw (parse_request, one, two, three)
      (ap
        (λ st. record {
          status = ready;
          type = type;
          resource = resource;
          headers = st.headers;
          protocols = protocols_of st.headers;
        })
        (scan_headers-fields fields [] hf))

-- The parser reads a request's text to what it says, and is empty again. Type and resource have no
-- space and no line break; names are not empty and have no colon and no line break, values start
-- with another character than a space and have no line break; the text has less than 1024 bytes.
pub parse_incoming-render_request :
    (type resource : Text) (fields : Values)
    → All is_word_char type
    → All is_word_char resource
    → AreFields fields
    → length (render_request type resource fields) < max_http_data
    → parse_incoming (record { stored = [] }) (render_request type resource fields)
      ≡ (request_of type resource fields, record { stored = [] })
parse_incoming-render_request type resource fields ht hr hf small =
    let all = render_request type resource fields in
    let parsed = parse_request-render type resource fields ht hr hf in
    parse_incoming-whole (record { stored = [] }) all (length all) small
      (render-end type resource fields ht hr hf) (ap (λ q. q.status) parsed)
    ∙ ap (λ q. (q, record { stored = [] })) parsed
