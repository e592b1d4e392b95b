-- ===== src/Web/Framing/Messages.antt =====
-- Whole messages that one call of `TcpClient::onReceive` of webserver/TcpClient.cpp receives.
use dumais_lib.Prelude.{
  ℕ, zero, suc, ◌+◌, ◌-◌, ◌%◌, ◌^◌, ◌≤◌, ◌<◌, ◌≡◌, ◌≢◌, refl, ap, ap₂, sym, ◌∙◌, arith, true, false,
  Bool-cases, inl, inr, Option, none, some, List, [], ◌∷◌, ◌++◌, Text, length, length-append,
  append_assoc, append-nil, take, take-append, drop, drop-append, ltb, ==_of_ne, if◌then◌else◌,
}
use native.Mathlib.Nat.{mod-eq_of_lt, add-mod_right}
use dumais_lib.Web.Request.{Regex}
use dumais_lib.Web.Chunks.{joined}
use dumais_lib.WebSocket.Handshake.{is_end_of_header, end_of_header}
use dumais_lib.Web.Framing.{
  took, as_int, c_string, content_length, is_chunked, complete_message, process_data, Receiver,
  take_message, receive_loop, on_receive,
}

unfoldable pub HasNoNul : Text → Type 0
HasNoNul [] = Unit {0}
HasNoNul (c ∷ s) = (c ≢ 0) × HasNoNul s

HasNoNul-append : (s t : Text) → HasNoNul s → HasNoNul t → HasNoNul (s ++ t)
unfolding HasNoNul
HasNoNul-append [] t h k = k
HasNoNul-append (c ∷ s) t (hc, h) k = (hc, HasNoNul-append s t h k)

c_string-whole : (s : Text) → HasNoNul s → c_string s ≡ s
unfolding HasNoNul c_string
c_string-whole [] h = refl
c_string-whole (c ∷ s) (hc, h) =
    rw (c_string, ==_of_ne c 0 hc) (ap (λ t. c ∷ t) (c_string-whole s h))

is_end_of_header-append :
    (s t : Text) → is_end_of_header s ≡ true → is_end_of_header (s ++ t) ≡ true
is_end_of_header-append [] t h = absurd (cc)
is_end_of_header-append (a ∷ []) t h = absurd (cc)
is_end_of_header-append (a ∷ b ∷ []) t h = absurd (cc)
is_end_of_header-append (a ∷ b ∷ c ∷ []) t h = absurd (cc)
is_end_of_header-append (a ∷ b ∷ c ∷ d ∷ s) t h = h

-- Where the end comes later, three characters follow.
is_end_of_header-later :
    (c : ℕ) (s t : Text) (m : ℕ)
    → end_of_header s ≡ some m
    → is_end_of_header (c ∷ s) ≡ false
    → is_end_of_header (c ∷ (s ++ t)) ≡ false
unfolding end_of_header
is_end_of_header-later c [] t m f h = absurd (cc)
is_end_of_header-later c (d ∷ []) t m f h = absurd (cc)
is_end_of_header-later c (d ∷ e ∷ []) t m f h = absurd (cc)
is_end_of_header-later c (d ∷ e ∷ g ∷ s) t m f h = h

-- The end of a header stays where it is when more data comes.
pub end_of_header-append :
    (s t : Text) (n : ℕ) → end_of_header s ≡ some n → end_of_header (s ++ t) ≡ some n
unfolding end_of_header
end_of_header-append [] t n h = absurd (cc)
end_of_header-append (c ∷ s) t n h = elim (Bool-cases (is_end_of_header (c ∷ s))) [
  | inl e ↦
      let four : some 4 ≡ some n = rw e at h in
      rw (end_of_header, is_end_of_header-append (c ∷ s) t e) four
  | inr e ↦ from (end_of_header s) refl e (λ m f. end_of_header-append s t m f) (rw e at h)
]
  where
    later : Option ℕ → Option ℕ
    later o = elim o [ none ↦ none | some m ↦ some (suc m) ]

    from :
        (o : Option ℕ)
        → end_of_header s ≡ o
        → is_end_of_header (c ∷ s) ≡ false
        → ((m : ℕ) → end_of_header s ≡ some m → end_of_header (s ++ t) ≡ some m)
        → later o ≡ some n
        → end_of_header (c ∷ (s ++ t)) ≡ some n
    from none f no_end keep g = absurd (cc)
    from (some m) f no_end keep g =
        rw (end_of_header, is_end_of_header-later c s t m f no_end, keep m f) g

module _ (rx : Regex) (atoi : Text → ℕ) where
  -- A text that is a message where `rest` follows it: it has a header, no NUL, less than 2 ^ 31 bytes,
  -- and the expressions find in both together the length of what is behind the header, and no chunked
  -- transfer.
  pub record IsMessage (s rest : Text) : Type 0 where
    pub header_end : ℕ
    pub ends : end_of_header s ≡ some header_end
    pub no_nul : HasNoNul s
    pub small : length s < 2 ^ 31
    pub content : header_end + content_length rx atoi (s ++ rest) ≡ length s
    pub not_chunked : is_chunked rx (s ++ rest) ≡ false

taken_first :
    (s rest : Text)
    → (if ltb (length s) (length (s ++ rest)) then take (0 + length s) (s ++ rest) else s ++ rest)
      ≡ s
taken_first s rest = elim (Bool-cases (ltb (length s) (length (s ++ rest)))) [
  | inl e ↦ rw e (
      ap (λ k. take k (s ++ rest)) {x = 0 + length s} {y = length s} (omega arith)
      ∙ take-append s rest)
  | inr e ↦ rw e (nothing rest (ground (arith, length-append s rest)))
]
  where
    nothing : (rest : Text) → length rest ≡ 0 → s ++ rest ≡ s
    nothing [] h = append-nil s
    nothing (c ∷ rest) h = absurd (omega arith)

-- A message that begins what has been received ends where it ends.
complete_message-first :
    (s rest : Text)
    → length s < 2 ^ 31
    → complete_message (length s) [] (s ++ rest) ≡ (took (length s), (s, true))
unfolding complete_message as_int
complete_message-first s rest small =
    let size : length (s ++ rest) ≡ length s + length rest = length-append s rest in
    let whole : ltb (length (s ++ rest)) (length s) ≡ false = ground arith in
    let delta : (length s + 2 ^ 64 - 0) % 2 ^ 64 % 2 ^ 32 ≡ length s =
      ap (λ k. k % 2 ^ 64 % 2 ^ 32) {x = length s + 2 ^ 64 - 0} {y = length s + 2 ^ 64}
        (omega arith)
      ∙ (ap (λ k. k % 2 ^ 32)
            (add-mod_right (length s) (2 ^ 64)
              ∙ mod-eq_of_lt {n = length s} {m = 2 ^ 64} (omega arith))
          ∙ mod-eq_of_lt {n = length s} {m = 2 ^ 32} (omega arith)) in
    let low : length s % 2 ^ 32 ≡ length s =
      mod-eq_of_lt {n = length s} {m = 2 ^ 32} (omega arith) in
    let signed : ltb (length s) (2 ^ 31) ≡ true = ground arith in
    rw (complete_message, whole, delta, as_int, low, signed)
      (ap (λ t. (took (length s), (t, true))) (taken_first s rest))

module _ (rx : Regex) (atoi : Text → ℕ) (behind : Text) where
  -- The receiver takes the message that the data begins with.
  process_data-first :
      (s rest : Text)
      → IsMessage rx atoi s (rest ++ behind)
      → HasNoNul rest
      → HasNoNul behind
      → process_data rx atoi behind [] (s ++ rest) ≡ (took (length s), (s, true))
  unfolding process_data
  process_data-first s rest is h k =
      let whole = c_string ((s ++ rest) ++ behind) in
      let message : whole ≡ s ++ (rest ++ behind) =
        c_string-whole ((s ++ rest) ++ behind)
          (HasNoNul-append (s ++ rest) behind (HasNoNul-append s rest is.no_nul h) k)
        ∙ append_assoc s rest behind in
      let ends : end_of_header whole ≡ some is.header_end =
        ap end_of_header message ∙ end_of_header-append s (rest ++ behind) is.header_end is.ends in
      let plain : is_chunked rx whole ≡ false = ap (is_chunked rx) message ∙ is.not_chunked in
      let size : is.header_end + content_length rx atoi whole ≡ length s =
        ap (λ m. is.header_end + content_length rx atoi m) message ∙ is.content in
      rw (process_data, ends, plain, size) (complete_message-first s rest is.small)

  receive_loop-first :
      (f : ℕ) (c : Receiver) (s rest : Text)
      → c.stored ≡ []
      → IsMessage rx atoi s (rest ++ behind)
      → HasNoNul rest
      → HasNoNul behind
      → receive_loop rx atoi behind (suc f) c (s ++ rest)
        ≡ receive_loop rx atoi behind f
            (record c { stored = []; messages = c.messages ++ s ∷ [] })
            rest
  unfolding receive_loop take_message end_of_header
  receive_loop-first f c [] rest fresh is h k =
      absurd (let e : none ≡ some is.header_end = is.ends in cc)
  receive_loop-first f c (b ∷ s) rest fresh is h k =
      let framed : process_data rx atoi behind c.stored (b ∷ (s ++ rest))
          ≡ (took (length (b ∷ s)), (b ∷ s, true)) =
        ap (λ t. process_data rx atoi behind t (b ∷ (s ++ rest))) fresh
        ∙ process_data-first (b ∷ s) rest is h k in
      rw (receive_loop, ap (λ r. r.0) framed)
        (ap
            (λ r.
              receive_loop rx atoi behind f (take_message c r.1)
                (drop (length (b ∷ s)) (b ∷ (s ++ rest))))
            framed
          ∙ ap
              (receive_loop rx atoi behind f
                (record c { stored = []; messages = c.messages ++ (b ∷ s) ∷ [] }))
              (drop-append (b ∷ s) rest))

  -- Messages that are received one behind the other, with `behind` behind the last one.
  unfoldable pub AreMessages : List Text → Type 0
  unfolding joined
  AreMessages [] = Unit {0}
  AreMessages (s ∷ ss) = IsMessage rx atoi s (joined ss ++ behind) × AreMessages ss

  joined-HasNoNul : (ss : List Text) → AreMessages ss → HasNoNul (joined ss)
  unfolding AreMessages joined HasNoNul
  joined-HasNoNul [] h = tt
  joined-HasNoNul (s ∷ ss) (is, h) = HasNoNul-append s (joined ss) is.no_nul (joined-HasNoNul ss h)

  receive_loop-messages :
      (f : ℕ) (c : Receiver) (ss : List Text)
      → c.stored ≡ []
      → AreMessages ss
      → HasNoNul behind
      → length ss ≤ f
      → receive_loop rx atoi behind f c (joined ss)
        ≡ some (true, record c { stored = []; messages = c.messages ++ ss })
  unfolding AreMessages joined receive_loop
  receive_loop-messages f c [] fresh h k small =
      ap₂ (λ t ms. some (true, record c { stored = t; messages = ms })) fresh
        (sym (append-nil c.messages))
  receive_loop-messages zero c (s ∷ ss) fresh h k small = absurd (omega arith)
  receive_loop-messages (suc f) c (s ∷ ss) fresh (is, h) k small =
      receive_loop-first f c s (joined ss) fresh is (joined-HasNoNul ss h) k
      ∙ (receive_loop-messages f (record c { stored = []; messages = c.messages ++ s ∷ [] }) ss refl
            h k (omega arith)
          ∙ ap (λ ms. some (true, record c { stored = []; messages = ms }))
              (append_assoc c.messages (s ∷ []) ss))

  pub on_receive-messages :
      (f : ℕ) (c : Receiver) (ss : List Text)
      → c.failed ≡ false
      → c.stored ≡ []
      → AreMessages ss
      → HasNoNul behind
      → length ss ≤ f
      → on_receive rx atoi behind f c (joined ss)
        ≡ some (true, record c { stored = []; messages = c.messages ++ ss })
  unfolding on_receive
  on_receive-messages f c ss working fresh h k small =
      ap (λ b. if b then some (false, c) else receive_loop rx atoi behind f c (joined ss)) working
      ∙ receive_loop-messages f c ss fresh h k small
