-- ===== src/Web/Sending.antt =====
-- The bytes that a client of webserver/TcpClient.cpp still has to send.
use dumais_lib.Prelude.{
  ℕ, zero, suc, ◌+◌, ◌≤◌, ◌<◌, ◌≡◌, refl, ap, sym, subst, ◌∙◌, arith, Option, none, some, List, [],
  ◌∷◌, ◌++◌, Text, length, ◌==◌, take, drop, append_assoc, append-nil, Bool-cases, inl, inr,
}
use dumais_lib.Utils.RingBuffer.{Ring}
use dumais_lib.Utils.RingBuffer.Refine.{Holds, put_room, put_overflow, get-cons, get-nil}
use dumais_lib.Web.Client.{
  SendBuffer, Client, send_data, refill, next_buffer, left_of, get_tx_data, sent_of, on_data_sent,
  Ended, Outcome, again, send_failed, lost, sent, after_send, send_loop,
}

-- The data of buffers that wait.
unfoldable pub waiting : List SendBuffer → Text
waiting [] = []
waiting (b ∷ bs) = drop b.current_index b.buffer ++ waiting bs

-- The client has the bytes `s` to send, the first of them first.
unfoldable pub Pending : Client → Text → Type 0
Pending c s = (q : List SendBuffer) × Holds c.tx_list q × (left_of c.current ++ waiting q ≡ s)

pub drop-nil : (n : ℕ) → drop {A = ℕ} n [] ≡ []
drop-nil zero = refl
drop-nil (suc n) = refl

drop-whole : (s : Text) → drop (length s) s ≡ []
drop-whole [] = refl
drop-whole (c ∷ s) = drop-whole s

pub drop-drop : (m n : ℕ) (s : Text) → drop (m + n) s ≡ drop n (drop m s)
drop-drop zero n s = ap (λ k. drop k s) {x = 0 + n} {y = n} (omega arith)
drop-drop (suc m) n [] = drop-nil (suc m + n) ∙ sym (drop-nil n)
drop-drop (suc m) n (c ∷ s) =
    ap (λ k. drop k (c ∷ s)) {x = suc m + n} {y = suc (m + n)} (omega arith) ∙ drop-drop m n s

drop-part : (n : ℕ) (s t : Text) → n ≤ length s → drop n (s ++ t) ≡ drop n s ++ t
drop-part zero s t h = refl
drop-part (suc n) [] t h = absurd (omega arith)
drop-part (suc n) (c ∷ s) t h = drop-part n s t (omega arith)

take-part : (n : ℕ) (s t : Text) → n ≤ length s → take n s ++ drop n (s ++ t) ≡ s ++ t
take-part zero s t h = refl
take-part (suc n) [] t h = absurd (omega arith)
take-part (suc n) (c ∷ s) t h = ap (λ r. c ∷ r) (take-part n s t (omega arith))

pub waiting-append : (q r : List SendBuffer) → waiting (q ++ r) ≡ waiting q ++ waiting r
unfolding waiting
waiting-append [] r = refl
waiting-append (b ∷ q) r =
    ap (λ s. drop b.current_index b.buffer ++ s) (waiting-append q r)
    ∙ sym (append_assoc (drop b.current_index b.buffer) (waiting q) (waiting r))

-- `sendData` appends its data to what the client has to send, while the ring of the buffers that
-- wait has two free slots.
pub send_data-Pending :
    (c : Client) (q : List SendBuffer) (s : Text)
    → Holds c.tx_list q
    → suc (length q) < c.tx_list.size
    → Pending (send_data c s) (left_of c.current ++ (waiting q ++ s))
unfolding Pending send_data waiting
send_data-Pending c q s h room =
    let b : SendBuffer = record { buffer = s; current_index = 0 } in
    (
      q ++ b ∷ [],
      (put_room c.tx_list q b h room).1,
      ap (λ t. left_of c.current ++ t)
          (waiting-append q (b ∷ []) ∙ ap (λ t. waiting q ++ t) (append-nil s)),
    )

-- When the ring of the buffers that wait has one free slot, `sendData` loses its data and all of
-- them: only what is left of the current buffer is still sent.
pub send_data-overflow :
    (c : Client) (q : List SendBuffer) (s : Text)
    → Holds c.tx_list q
    → suc (length q) ≡ c.tx_list.size
    → Pending (send_data c s) (left_of c.current)
unfolding Pending send_data waiting
send_data-overflow c q s h full = (
  [],
  (put_overflow c.tx_list q (record { buffer = s; current_index = 0 }) h full).1,
  append-nil (left_of c.current),
)

refill-Pending :
    (current : Option SendBuffer) (ring : Ring SendBuffer) (s : Text)
    → Pending (record { tx_list = ring; current = current }) s
    → Pending (refill current ring) s
unfolding Pending refill waiting left_of
refill-Pending (some b) ring s h = h
refill-Pending none ring s ([], h, e) = ([], rw (get-nil ring h) h, rw (get-nil ring h) e)
refill-Pending none ring s (b ∷ q, h, e) =
    let (first, rest) = get-cons ring b q h in (q, rest, ap (λ o. left_of o ++ waiting q) first ∙ e)

-- `getTxData` leaves what the client has to send, and its data is the beginning of that.
pub get_tx_data-Pending :
    (c : Client) (s : Text)
    → Pending c s
    → Pending (get_tx_data c).1 s × ((rest : Text) × ((get_tx_data c).0 ++ rest ≡ s))
unfolding get_tx_data next_buffer
get_tx_data-Pending c s h =
    let after = refill-Pending c.current c.tx_list s h in
    (after, unfold Pending in (waiting after.0, after.2))

left_of-sent :
    (current : Option SendBuffer) (n : ℕ)
    → n ≤ length (left_of current)
    → left_of (sent_of current n) ≡ drop n (left_of current)
unfolding left_of sent_of
left_of-sent none n h = sym (drop-nil n)
left_of-sent (some b) n h = elim (Bool-cases (b.current_index + n == length b.buffer)) [
  | inl whole ↦
      let e : b.current_index + n ≡ length b.buffer = ground arith in
      rw whole (
        sym (ap (λ k. drop k b.buffer) e ∙ drop-whole b.buffer)
        ∙ drop-drop b.current_index n b.buffer)
  | inr part ↦ rw part (drop-drop b.current_index n b.buffer)
]

-- After `onDataSent n`, for no more bytes than `getTxData` gave, the client has to send what is
-- behind them.
pub on_data_sent-Pending :
    (c : Client) (s : Text) (n : ℕ)
    → Pending c s
    → n ≤ length (left_of c.current)
    → Pending (on_data_sent c n) (drop n s) × (take n (left_of c.current) ++ drop n s ≡ s)
unfolding Pending on_data_sent
on_data_sent-Pending c s n (q, h, e) le = (
  (
    q,
    h,
    ap (λ t. t ++ waiting q) (left_of-sent c.current n le)
        ∙ sym (drop-part n (left_of c.current) (waiting q) le)
        ∙ ap (drop n) e,
  ),
  ap (λ t. take n (left_of c.current) ++ drop n t) (sym e)
      ∙ take-part n (left_of c.current) (waiting q) le
      ∙ e,
)

-- The socket takes no more bytes than it is given.
unfoldable pub Fits : Outcome → Text → Type 0
Fits (sent n) s = n ≤ length s
Fits _ s = Unit {0}

unfoldable pub client_after : Outcome → Client → Client
client_after (sent n) c = on_data_sent c n
client_after _ c = c

unfoldable pub AreFitting : List Outcome → Client → Type 0
AreFitting [] c = Unit {0}
AreFitting (o ∷ os) c = Fits o (get_tx_data c).0 × AreFitting os (client_after o (get_tx_data c).1)

-- What has gone out and what the client still has to send are `s`.
abbrev pub Continues : Text × Ended × Client → Text → Type 0
Continues (out, up, c) s = (rest : Text) × Pending c rest × (out ++ rest ≡ s)

after_send-Continues :
    (rounds : Client → Text × Ended × Client) (o : Outcome) (bytes : Text) (c : Client) (s : Text)
    → left_of c.current ≡ bytes
    → Pending c s
    → Fits o bytes
    → ((d : Client) (t : Text) → d ≡ client_after o c → Pending d t → Continues (rounds d) t)
    → Continues (after_send rounds o (bytes, c)) s
unfolding after_send Fits client_after
after_send-Continues rounds o [] c s e h fits ih = (s, h, refl)
after_send-Continues rounds again (b ∷ bytes) c s e h fits ih = ih c s refl h
after_send-Continues rounds send_failed (b ∷ bytes) c s e h fits ih = ih c s refl h
after_send-Continues rounds lost (b ∷ bytes) c s e h fits ih = (s, h, refl)
after_send-Continues rounds (sent n) (b ∷ bytes) c s e h fits ih =
    let (later, parts) = on_data_sent-Pending c s n h (rw e fits) in
    let (rest, pending, joined) = ih (on_data_sent c n) (drop n s) refl later in
    (
      rest,
      pending,
      append_assoc (take n (b ∷ bytes)) (rounds (on_data_sent c n)).0 rest
          ∙ ap (λ t. take n (b ∷ bytes) ++ t) joined
          ∙ ap (λ t. take n t ++ drop n s) (sym e)
          ∙ parts,
    )

-- Whatever the calls of `send` return, as long as none takes more bytes than it is given, the
-- bytes that go out and the bytes that the client still has to send then are together the ones
-- that it had to send before, in order.
pub send_loop-Continues :
    (os : List Outcome) (c : Client) (s : Text)
    → AreFitting os c
    → Pending c s
    → Continues (send_loop os c) s
unfolding send_loop AreFitting
send_loop-Continues [] c s fits h = (s, h, refl)
send_loop-Continues (o ∷ os) c s (fit, fits) h =
    after_send-Continues (send_loop os) o (get_tx_data c).0 (get_tx_data c).1 s
      (unfold get_tx_data in refl) (get_tx_data-Pending c s h).0 fit
      (λ d t e later. send_loop-Continues os d t (subst (AreFitting os) (sym e) fits) later)
