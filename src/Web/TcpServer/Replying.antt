-- ===== src/Web/TcpServer/Replying.antt =====
-- A request that webserver/TcpServer.cpp reads and webserver/WebServer.cpp replies to.
use dumais_lib.Prelude.{
  ℕ, suc, ◌+◌, ◌<◌, ◌≡◌, refl, ap, sym, subst, ◌∙◌, arith, true, false, Bool-cases, inl, inr, some,
  List, [], ◌∷◌, ◌++◌, Text, length, append-nil, ◌==◌,
}
use dumais_lib.Prelude.Maps.{lookup, insert, lookup-insert_self}
use dumais_lib.Utils.RingBuffer.Refine.{Holds}
use dumais_lib.Web.Auth.{Server}
use dumais_lib.Web.Client.{SendBuffer, Client, left_of}
use dumais_lib.Web.Sending.{waiting, Pending}
use dumais_lib.Web.Response.{Response, header_text, with_header}
use dumais_lib.Web.Chunks.{joined, response_text, with_header-content}
use dumais_lib.Web.Framing.{Receiver, on_receive}
use dumais_lib.Web.Framing.Messages.{HasNoNul, IsMessage, AreMessages, on_receive-messages}
use dumais_lib.Web.Serving.{replied, has_client, on_client_message}
use dumais_lib.Web.Observer.{
  returned, Peer, Peers, State, Setup, Readings, sender_at, set_sender, respond, respond_if,
  perform, on_message, on_messages, on_errors,
}
use dumais_lib.Web.Observer.Peers.{
  addresses, AreDistinct, addresses-insert_same, has_client-lookup, same_of,
}
use dumais_lib.Web.Observer.Sent.{send_response-Pending}
use dumais_lib.Web.TcpServer.{receive}

pub sender_at-lookup :
    (fd : ℕ) (p : Peer) (m : Peers)
    → lookup fd m ≡ some p
    → AreDistinct (addresses m)
    → sender_at p.address m ≡ some p.sender
unfolding lookup sender_at AreDistinct addresses
sender_at-lookup fd p [] found k = absurd (cc)
sender_at-lookup fd p ((d, q) ∷ m) found (new, k) = elim (Bool-cases (d == fd)) [
  | inl e ↦
      let f : some q ≡ some p = rw e at found in
      let g : q ≡ p = cc in
      let t : (q.address == p.address) ≡ true = ground (arith, ap (λ r. r.address) g) in
      rw t (ap (λ r. some r.sender) g)
  | inr e ↦ elim (Bool-cases (q.address == p.address)) [
    | inl t ↦
        let f : true ≡ false =
          sym (has_client-lookup fd p m (rw e at found))
          ∙ ap (λ a. has_client a (addresses m)) (sym (same_of q.address p.address t))
          ∙ new in
        absurd (cc)
    | inr t ↦ rw t (sender_at-lookup fd p m (rw e at found) k)
  ]
]

sender_at-set_sender :
    (a : ℕ) (c d : Client) (m : Peers)
    → sender_at a m ≡ some c
    → sender_at a (set_sender a d m) ≡ some d
unfolding sender_at set_sender
sender_at-set_sender a c d [] found = absurd (cc)
sender_at-set_sender a c d ((fd, p) ∷ m) found = elim (Bool-cases (p.address == a)) [
  | inl e ↦ rw (e, sender_at, e) refl
  | inr e ↦ rw (e, sender_at, e) (sender_at-set_sender a c d m (rw e at found))
]

-- A response whose client has room for it.
pub respond-sent :
    (r : Response) (a : ℕ) (st : State) (c : Client) (q : List SendBuffer)
    → sender_at a st.client_list ≡ some c
    → Holds c.tx_list q
    → length q + (length (with_header r).content + 1) < c.tx_list.size
    → (d : Client) × (respond r a st
        ≡ returned (record st { client_list = set_sender a d st.client_list }))
      × (sender_at a (set_sender a d st.client_list) ≡ some d)
      × Pending d (left_of c.current ++ (waiting q ++ (with_header r).content))
unfolding respond
respond-sent r a st c q found h room =
    let (d, run, pending) = send_response-Pending r c q h room in
    (d, rw (respond, found, run) refl, sender_at-set_sender a c d st.client_list found, pending)

-- A read that is one whole request, to which the web server replies at once, returns, and the
-- header and the content of the response are then what the client has to send, behind what it
-- had to send before. The request has no NUL, less than 2 ^ 31 bytes and a header, and with what
-- stands in memory behind it the expressions find the length of what is behind its header and no
-- chunked transfer. The response's header has not been built before, the client is the one of
-- the descriptor, no two clients have one pointer, the client has not failed and has nothing
-- stored, what stands behind the buffer in memory is taken up to its first NUL, and the client's
-- ring has room for the bytes of the response and one more.
pub receive-replied :
    (env : Setup) (f fd : ℕ) (p : Peer) (s behind : Text) (now : ℕ → Readings) (st : State)
    (resp : Response) (auth : Server) (q : List SendBuffer)
    → lookup fd st.client_list ≡ some p
    → AreDistinct (addresses st.client_list)
    → p.receiver.failed ≡ false
    → p.receiver.stored ≡ []
    → IsMessage env.rx env.atoi s behind
    → HasNoNul behind
    → on_client_message env.rx env.async env.listener (now 0).t0 (now 0).t1 (now 0).rand st.auth s
      ≡ some (replied (some resp), auth)
    → resp.header_built ≡ false
    → Holds p.sender.tx_list q
    → length q + (length (header_text resp (length resp.content) ++ resp.content) + 1)
      < p.sender.tx_list.size
    → (t : State) × (d : Client) × (receive env (suc f) fd p s behind now st ≡ returned t)
      × (sender_at p.address t.client_list ≡ some d)
      × Pending d (
          left_of p.sender.current
          ++ (waiting q ++ (header_text resp (length resp.content) ++ resp.content)))
unfolding response_text receive on_messages on_message perform respond_if on_errors AreMessages
    joined
receive-replied env f fd p s behind now st resp auth q found distinct working fresh is no_nul reply
      new h room =
    let c : Receiver = record (p.receiver) { messages = []; errors = [] } in
    let r : Receiver = record c { stored = []; messages = s ∷ [] } in
    let p' : Peer = record p { receiver = r } in
    let run : on_receive env.rx env.atoi behind (suc f) c s ≡ some (true, r) =
      ap (on_receive env.rx env.atoi behind (suc f) c) (sym (append-nil s))
      ∙ on_receive-messages env.rx env.atoi behind (suc f) c (s ∷ []) working fresh (is, tt) no_nul
          (omega arith) in
    let st' : State = record st { client_list = insert fd p' st.client_list; auth = auth } in
    let there : sender_at p.address (insert fd p' st.client_list) ≡ some p.sender =
      sender_at-lookup fd p' (insert fd p' st.client_list) (lookup-insert_self fd p' st.client_list)
        (subst AreDistinct (sym (addresses-insert_same fd p p' st.client_list found refl))
          distinct) in
    let bytes = with_header-content resp new in
    let (d, sent, at, pending) =
      respond-sent resp p.address st' p.sender q there h
        (subst (λ s. length q + (length s + 1) < p.sender.tx_list.size) (sym bytes) room) in
    (
      record st' { client_list = set_sender p.address d st'.client_list },
      d,
      rw (receive, run) (rw (on_message, reply) (rw sent refl)),
      at,
      subst (λ s. Pending d (left_of p.sender.current ++ (waiting q ++ s))) bytes pending,
    )
