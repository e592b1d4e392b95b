-- ===== src/Web/Chunks.antt =====
-- What `WebServer::sendResponse` of webserver/WebServer.cpp hands to the client.
use dumais_lib.Prelude.{
  ℕ, zero, suc, ◌+◌, ◌≤◌, ◌<◌, ◌≡◌, refl, ap, sym, ◌∙◌, arith, true, false, some, List, [], ◌∷◌,
  ◌++◌, Text, length, ◌==◌, take, drop, length-drop, length-take, Bool-cases, inl, inr,
}
use Prim.Native.Nat.{min}
use dumais_lib.Web.Client.{
  SendBuffer, Client, send_data, get_tx_data, next_buffer, refill, left_of, Outcome, after_send,
  send_loop,
}
use dumais_lib.Web.Response.{
  Response, header_text, build_header, prepend, with_header, get_response_chunk, bufsize,
  response_chunks, send_all, send_response,
}
use dumais_lib.Web.Sending.{drop-drop, drop-nil}

unfoldable pub joined : List Text → Text
joined [] = []
joined (s ∷ ss) = s ++ joined ss

with_header-built : (r : Response) → r.header_built ≡ true → with_header r ≡ r
unfolding with_header prepend build_header
with_header-built r h = rw h refl

with_header-new :
    (r : Response)
    → r.header_built ≡ false
    → with_header r
      ≡ prepend (true, record r { header = header_text r (length r.content); header_built = true })
unfolding with_header build_header
with_header-new r h = rw h refl

-- The bytes of a response: its lines, an empty one, and the content.
unfoldable pub response_text : Response → Text
response_text r = header_text r (length r.content) ++ r.content

-- A response whose header has not been built gets it before the content.
pub with_header-content :
    (r : Response) → r.header_built ≡ false → (with_header r).content ≡ response_text r
unfolding response_text
with_header-content r new = ap (λ q. q.content) (with_header-new r new) ∙ (unfold prepend in refl)

-- The header is built once.
with_header-twice : (r : Response) → with_header (with_header r) ≡ with_header r
with_header-twice r = with_header-built (with_header r) (elim (Bool-cases r.header_built) [
  | inl built ↦ ap (λ q. q.header_built) (with_header-built r built) ∙ built
  | inr new ↦ ap (λ q. q.header_built) (with_header-new r new) ∙ (unfold prepend in refl)
])

take-drop : (n : ℕ) (s : Text) → take n s ++ drop (length (take n s)) s ≡ s
take-drop zero s = refl
take-drop (suc n) [] = refl
take-drop (suc n) (c ∷ s) = ap (λ t. c ∷ t) (take-drop n s)

empty_length : (s : Text) → length s ≡ 0 → s ≡ []
empty_length [] h = refl
empty_length (c ∷ s) h = absurd (omega arith)

zero_of : (n : ℕ) → (n == 0) ≡ true → n ≡ 0
zero_of n h = ground arith

positive_of : (n : ℕ) → (n == 0) ≡ false → 0 < n
positive_of n h = ground arith

chunks-last :
    (f : ℕ) (r : Response) (index : ℕ)
    → length (get_response_chunk r index bufsize).0 ≡ 0
    → response_chunks (suc f) r index ≡ some ((get_response_chunk r index bufsize).0 ∷ [])
unfolding response_chunks
chunks-last f r index h =
    let e : (length (get_response_chunk r index bufsize).0 == 0) ≡ true = ground arith in rw e

chunks-more :
    (f : ℕ) (r : Response) (index : ℕ) (cs : List Text)
    → 0 < length (get_response_chunk r index bufsize).0
    → response_chunks f
        (get_response_chunk r index bufsize).1
        (index + length (get_response_chunk r index bufsize).0)
      ≡ some cs
    → response_chunks (suc f) r index ≡ some ((get_response_chunk r index bufsize).0 ∷ cs)
unfolding response_chunks
chunks-more f r index cs pos h =
    let e : (length (get_response_chunk r index bufsize).0 == 0) ≡ false = ground arith in
    rw e (rw h refl)

-- The chunks from an index on end with an empty one and are together what is left of the content.
response_chunks-from :
    (f : ℕ) (r : Response) (index : ℕ) (text : Text)
    → (with_header r).content ≡ text
    → length (drop index text) < f
    → (cs : List Text) × (response_chunks f r index ≡ some (cs ++ [] ∷ []))
      × (joined cs ≡ drop index text)
      × (length cs ≤ length (drop index text))
unfolding get_response_chunk joined
response_chunks-from zero r index text e h = absurd (omega arith)
response_chunks-from (suc f) r index text e h =
    let left = drop index text in
    let chunk = take bufsize left in
    let is_chunk : take bufsize (drop index (with_header r).content) ≡ chunk =
      ap (λ t. take bufsize (drop index t)) e in
    let size : length chunk ≡ min bufsize (length left) = length-take bufsize left in
    elim (Bool-cases (length chunk == 0)) [
      | inl last ↦
          let nothing : chunk ≡ [] = empty_length chunk (zero_of (length chunk) last) in
          let none_left : left ≡ [] =
            empty_length left (omega (arith, size, zero_of (length chunk) last)) in
          (
            [],
            chunks-last f r index (ap length is_chunk ∙ ap length nothing)
                ∙ ap (λ s. some (s ∷ [])) (is_chunk ∙ nothing),
            sym none_left,
            omega arith,
          )
      | inr more ↦
          let next : drop (index + length chunk) text ≡ drop (length chunk) left =
            drop-drop index (length chunk) text in
          let (cs, run, join, few) =
            response_chunks-from f (with_header r) (index + length chunk) text
              (ap (λ q. q.content) (with_header-twice r) ∙ e)
              (omega (
                arith,
                ap length next,
                length-drop (length chunk) left,
                size,
                positive_of (length chunk) more,
              )) in
          (
            chunk ∷ cs,
            chunks-more f r index (cs ++ [] ∷ [])
                  (omega (arith, ap length is_chunk, positive_of (length chunk) more))
                  (ap (λ s. response_chunks f (with_header r) (index + length s)) is_chunk ∙ run)
                ∙ ap (λ s. some (s ∷ (cs ++ [] ∷ []))) is_chunk,
            ap (λ t. chunk ++ t) (join ∙ next) ∙ take-drop bufsize left,
            omega (
              arith,
              few,
              ap length next,
              length-drop (length chunk) left,
              size,
              positive_of (length chunk) more,
            ),
          )
    ]

spent-get_tx_data :
    (c : Client) (b : SendBuffer)
    → c.current ≡ some b
    → drop b.current_index b.buffer ≡ []
    → get_tx_data c ≡ ([], record c { current = some b })
unfolding get_tx_data next_buffer
spent-get_tx_data c b e spent =
    rw e (unfold refill in unfold left_of in ap (λ s. (s, record c { current = some b })) spent)

-- Once the client's current buffer is an empty one, which `sendResponse` puts at the end of
-- every response, no byte goes out any more, whatever is sent and whatever the socket's calls
-- return.
pub send_loop-stuck :
    (os : List Outcome) (c : Client) (b : SendBuffer) (s : Text)
    → c.current ≡ some b
    → b.buffer ≡ []
    → (send_loop os (send_data c s)).0 ≡ []
unfolding send_loop
send_loop-stuck [] c b s e empty = refl
send_loop-stuck (o ∷ os) c b s e empty =
    rw
      (spent-get_tx_data (send_data c s) b (unfold send_data in e)
        (ap (drop b.current_index) empty ∙ drop-nil b.current_index))
      (unfold after_send in refl)

-- `sendResponse` ends after one round more than the response has bytes, and it hands over no more
-- chunks than those and an empty one.
pub send_response-ends :
    (r : Response) (c : Client)
    → (cs : List Text) × (joined cs ≡ (with_header r).content)
      × (length cs ≤ length (with_header r).content)
      × (send_response (suc (length (with_header r).content)) r c
          ≡ some (send_all c (cs ++ [] ∷ [])))
unfolding send_response
send_response-ends r c =
    let (cs, run, join, few) =
      response_chunks-from (suc (length (with_header r).content)) r 0 (with_header r).content refl
        (omega arith) in
    (cs, join, few, rw (send_response, run) refl)
