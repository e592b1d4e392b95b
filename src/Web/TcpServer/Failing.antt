-- ===== src/Web/TcpServer/Failing.antt =====
-- Clients of webserver/TcpServer.cpp whose framing has failed.
use dumais_lib.Prelude.{
  ℕ, suc, ◌+◌, ◌<◌, ◌≡◌, codes, length, refl, ap, sym, subst, ◌∙◌, Bool, true, false, Bool-cases,
  inl, inr, ◌⊎◌, some, List, [], ◌∷◌, ◌++◌, Text, ◌==◌, if◌then◌else◌,
}
use dumais_lib.Prelude.Maps.{lookup, insert, lookup-insert_self}
use dumais_lib.Utils.RingBuffer.Refine.{Holds}
use dumais_lib.Json.Decimal.{decimal, digits_below}
use dumais_lib.Web.Auth.{build_buffered_response}
use dumais_lib.Web.Client.{SendBuffer, Client, Outcome, Ended, left_of, send_loop}
use dumais_lib.Web.Sending.{waiting, Pending}
use dumais_lib.Web.Response.{header_text, build_header, prepend, with_header}
use dumais_lib.Web.Response.Codes.{get_code, response_codes_string}
use dumais_lib.Web.Framing.{Receiver, refused, process_data, receive_loop, on_receive}
use dumais_lib.Web.Serving.{on_framing_error}
use dumais_lib.Web.Observer.{
  Ending, returned, undefined, ◌>>=◌, Peer, Peers, State, Setup, Readings, sender_at, set_sender,
  on_messages, on_errors,
}
use dumais_lib.Web.Observer.Peers.{AreDistinct, addresses-insert_same}
use dumais_lib.Web.Observer.Known.{IsConnected}
use dumais_lib.Web.TcpServer.Replying.{sender_at-lookup, respond-sent}
use dumais_lib.Web.TcpServer.{receive, send_peer, send_peers, process_send}

send_peer-failed :
    (os : List Outcome) (p : Peer) → p.receiver.failed ≡ true → send_peer os p ≡ undefined
unfolding send_peer
send_peer-failed os p h = elim (Bool-cases (send_loop os p.sender).1.up) [
  | inl e ↦ rw (e, h) refl
  | inr e ↦ rw e refl
]

-- A client's round of `processSend` ends.
send_peer-cases :
    (os : List Outcome) (p : Peer)
    → (send_peer os p ≡ undefined) ⊎ ((next : Bool × Peer) × (send_peer os p ≡ returned next))
unfolding send_peer
send_peer-cases os p = from (send_loop os p.sender).1.up p.receiver.failed (send_loop os p.sender)
  where
    from :
        (up failed : Bool) (l : Text × Ended × Client)
        → let result : Ending (Bool × Peer) =
            if up
            then if failed
              then undefined
              else returned (l.1.aborted, record p { sender = l.2; sent = p.sent ++ l.0 })
            else undefined in
          (result ≡ undefined) ⊎ ((next : Bool × Peer) × (result ≡ returned next))
    from true true l = inl refl
    from true false l = inr (_, refl)
    from false failed l = inl refl

send_peers-failed :
    (os : ℕ → List Outcome) (fd : ℕ) (p : Peer) (m : Peers)
    → lookup fd m ≡ some p
    → p.receiver.failed ≡ true
    → send_peers os m ≡ undefined
unfolding lookup send_peers
send_peers-failed os fd p [] found h = absurd (cc)
send_peers-failed os fd p ((d, q) ∷ m) found h = elim (Bool-cases (d == fd)) [
  | inl e ↦
      let f : some q ≡ some p = rw e at found in
      let g : q ≡ p = cc in
      rw (send_peers, send_peer-failed (os d) q (ap (λ r. r.receiver.failed) g ∙ h)) refl
  | inr e ↦ elim (send_peer-cases (os d) q) [
    | inl u ↦ rw (send_peers, u) refl
    | inr (next, r) ↦ rw (send_peers, r) (rw (send_peers-failed os fd p m (rw e at found) h) refl)
  ]
]

-- Once the framing of a client has failed, the next `processSend` has no defined behaviour, whatever
-- its calls of `send` return: it erases the client and goes on from the erased iterator.
pub process_send-failed :
    (os : ℕ → List Outcome) (fd : ℕ) (p : Peer) (st : State)
    → st.stopping ≡ false
    → lookup fd st.client_list ≡ some p
    → p.receiver.failed ≡ true
    → process_send os st ≡ undefined
unfolding process_send
process_send-failed os fd p st going found h =
    ap
      (λ b.
        if b
        then returned st
        else send_peers os st.client_list >>= λ next.
            returned (record st { client_list = next.1; stopping = next.0 }))
      going
    ∙ rw (send_peers-failed os fd p st.client_list found h) refl

-- A response leaves what the clients have received.
lookup-set_sender :
    (fd a : ℕ) (c : Client) (p : Peer) (m : Peers)
    → lookup fd m ≡ some p
    → (q : Peer) × (lookup fd (set_sender a c m) ≡ some q) × (q.receiver ≡ p.receiver)
unfolding lookup set_sender
lookup-set_sender fd a c p [] found = absurd (cc)
lookup-set_sender fd a c p ((d, r) ∷ m) found = elim (Bool-cases (d == fd)) [
  | inl e ↦
      let f : some r ≡ some p = rw e at found in
      let g : r.receiver ≡ p.receiver = ap (λ q. q.receiver) (let k : r ≡ p = cc in k) in
      elim (Bool-cases (r.address == a)) [
        | inl t ↦ (record r { sender = c }, rw (t, lookup, e) refl, g)
        | inr t ↦ (r, rw (t, lookup, e) refl, g)
      ]
  | inr e ↦
      let (q, there, same) = lookup-set_sender fd a c p m (rw e at found) in
      elim (Bool-cases (r.address == a)) [
        | inl t ↦ (p, rw (t, lookup, e) (rw e at found), refl)
        | inr t ↦ (q, rw (t, lookup, e) there, same)
      ]
]

-- The whole answer to an error of the framing.
unfoldable pub refusal_text : (code : ℕ) → Text
refusal_text code =
    codes "HTTP/1.1 "
    ++ ((if code == 3
          then codes "501 NotImplemented"
          else if code == 2
          then codes "413 RequestEntityTooLarge"
          else codes "503 ServiceUnavailable")
        ++ codes
            "\r\nContent-Length: 0\r\nConnection: Close\r\nAccess-Control-Allow-Origin: *\r\n\r\n")

on_framing_error-text :
    (code : ℕ) → (with_header (on_framing_error code)).content ≡ refusal_text code
unfolding on_framing_error refusal_text with_header build_header prepend header_text
    build_buffered_response get_code response_codes_string decimal digits_below
on_framing_error-text code = elim (Bool-cases (code == 3)) [
  | inl e ↦ rw e refl
  | inr e ↦ elim (Bool-cases (code == 2)) [ inl f ↦ rw (e, f) refl | inr f ↦ rw (e, f) refl ]
]

-- A read that the framing refuses returns, and its client has then to send the response to the
-- error, which is that chunked transfers are not implemented, that the request is too large, or
-- that there is no service, behind what it had to send before. Then `processSend` has no defined
-- behaviour, whatever its calls of `send` return: it erases the client and goes on from the
-- erased iterator. The web server knows the clients, the client is the one of the descriptor and
-- has not failed before, its ring has room for the bytes of the response and one more, and the
-- server is not stopping.
pub receive-refused :
    (env : Setup) (f fd : ℕ) (p : Peer) (b : ℕ) (s behind : Text) (now : ℕ → Readings) (st : State)
    (code : ℕ) (info : Text × Bool) (os : ℕ → List Outcome) (q : List SendBuffer)
    → IsConnected env st
    → st.stopping ≡ false
    → lookup fd st.client_list ≡ some p
    → p.receiver.failed ≡ false
    → process_data env.rx env.atoi behind p.receiver.stored (b ∷ s) ≡ (refused code, info)
    → Holds p.sender.tx_list q
    → length q + (length (refusal_text code) + 1) < p.sender.tx_list.size
    → (t : State) × (d : Client) × (receive env (suc f) fd p (b ∷ s) behind now st ≡ returned t)
      × (sender_at p.address t.client_list ≡ some d)
      × Pending d (left_of p.sender.current ++ (waiting q ++ refusal_text code))
      × (process_send os t ≡ undefined)
unfolding receive on_receive on_messages on_errors
receive-refused env f fd p b s behind now st code info os q h going found working bad holds room =
    let c : Receiver = record (p.receiver) { messages = []; errors = [] } in
    let r : Receiver = record c { failed = true; stored = info.0; errors = code ∷ [] } in
    let p' : Peer = record p { receiver = r } in
    let st' : State = record st { client_list = insert fd p' st.client_list } in
    let run : on_receive env.rx env.atoi behind (suc f) c (b ∷ s) ≡ some (false, r) =
      ap (λ x. if x then some (false, c) else receive_loop env.rx env.atoi behind (suc f) c (b ∷ s))
        working
      ∙ rw (receive_loop, ap (λ x. x.0) bad)
          (ap (λ x. some (false, record c { failed = true; stored = x.1.0; errors = code ∷ [] }))
            bad) in
    let there : sender_at p.address (insert fd p' st.client_list) ≡ some p.sender =
      sender_at-lookup fd p' (insert fd p' st.client_list) (lookup-insert_self fd p' st.client_list)
        (subst AreDistinct (sym (addresses-insert_same fd p p' st.client_list found refl))
          h.distinct) in
    let bytes = on_framing_error-text code in
    let (d, sent, at, pending) =
      respond-sent (on_framing_error code) p.address st' p.sender q there holds
        (subst (λ text. length q + (length text + 1) < p.sender.tx_list.size) (sym bytes) room) in
    let t : State = record st' { client_list = set_sender p.address d st'.client_list } in
    let (q', left, same) =
      lookup-set_sender fd p.address d p' st'.client_list
        (lookup-insert_self fd p' st.client_list) in
    (
      t,
      d,
      rw (receive, run) (rw (on_errors, sent) refl),
      at,
      subst (λ text. Pending d (left_of p.sender.current ++ (waiting q ++ text))) bytes pending,
      process_send-failed os fd q' t going left (ap (λ x. x.failed) same),
    )
