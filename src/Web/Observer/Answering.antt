-- ===== src/Web/Observer/Answering.antt =====
-- `WebServer::processAsyncQueue` of webserver/WebServer.cpp on the clients that
-- webserver/TcpServer.cpp keeps.
use dumais_lib.Prelude.{
  ℕ, suc, ◌≡◌, refl, sym, ◌∙◌, arith, true, Bool-cases, inl, inr, none, some, List, [], ◌∷◌, ◌++◌,
  Option, subst, if◌then◌else◌,
}
use dumais_lib.Web.Client.{Client}
use dumais_lib.Web.Response.{Response, send_all}
use dumais_lib.Web.Chunks.{send_response-ends}
use dumais_lib.Web.Serving.{AsyncResponse, has_client, deliver}
use dumais_lib.Web.Answers.{deliveries, process_async_queue-run}
use dumais_lib.Web.Observer.{returned, State, Setup, set_sender, respond, respond_all, send_answers}
use dumais_lib.Web.Observer.Peers.{addresses, addresses-set_sender, sender_at-has_client}
use dumais_lib.Web.Observer.Known.{EndsIn-returned, IsConnected, respond-IsConnected}

-- Every response is for a client of the list.
unfoldable pub AreFor : List ℕ → List (ℕ × Response) → Type 0
AreFor ks [] = Unit {0}
AreFor ks ((a, r) ∷ rs) = (has_client a ks ≡ true) × AreFor ks rs

deliver-AreFor :
    (ks : List ℕ) (ar : AsyncResponse) (rs : List (ℕ × Response))
    → AreFor ks rs
    → AreFor ks (deliver ks ar rs)
unfolding deliver AreFor
deliver-AreFor ks ar rs h = from ar.resp
  where
    from :
        (o : Option Response)
        → AreFor ks (elim o [
          | none ↦ rs
          | some r ↦ if has_client ar.client ks then (ar.client, r) ∷ rs else rs
        ])
    from none = h
    from (some r) = elim (Bool-cases (has_client ar.client ks)) [
      | inl e ↦ rw e (e, h)
      | inr e ↦ rw e h
    ]

deliveries-AreFor : (ks : List ℕ) (ars : List AsyncResponse) → AreFor ks (deliveries ks ars)
unfolding deliveries
deliveries-AreFor ks [] = unfold AreFor in tt
deliveries-AreFor ks (ar ∷ ars) =
    deliver-AreFor ks ar (deliveries ks ars) (deliveries-AreFor ks ars)

module _ (env : Setup) where
  -- A response to a client that is there is handed over to it.
  pub respond-returned :
      (r : Response) (a : ℕ) (st : State)
      → IsConnected env st
      → has_client a (addresses st.client_list) ≡ true
      → (d : Client) × (respond r a st
          ≡ returned (record st { client_list = set_sender a d st.client_list }))
        × IsConnected env (record st { client_list = set_sender a d st.client_list })
  unfolding respond
  respond-returned r a st h there =
      let (c, found) = sender_at-has_client a st.client_list there in
      let (cs, join, few, run) = send_response-ends r c in
      let d : Client = send_all c (cs ++ [] ∷ []) in
      let t : State = record st { client_list = set_sender a d st.client_list } in
      let e : respond r a st ≡ returned t = rw (respond, found, run) refl in
      (
        d,
        e,
        EndsIn-returned (IsConnected env) (respond r a st) t e (respond-IsConnected env r a st h),
      )

  respond_all-returned :
      (rs : List (ℕ × Response)) (st : State)
      → IsConnected env st
      → AreFor (addresses st.client_list) rs
      → (t : State) × (respond_all rs st ≡ returned t)
        × IsConnected env t
        × (addresses t.client_list ≡ addresses st.client_list)
  unfolding respond_all AreFor
  respond_all-returned [] st h k = (st, refl, h, refl)
  respond_all-returned ((a, r) ∷ rs) st h (there, k) =
      let (d, first, hs) = respond-returned r a st h there in
      let s : State = record st { client_list = set_sender a d st.client_list } in
      let same = addresses-set_sender a d st.client_list in
      let (t, rest, ht, same') =
        respond_all-returned rs s hs (subst (λ ks. AreFor ks rs) (sym same) k) in
      (t, rw (respond_all, first) rest, ht, same' ∙ same)

  -- If the web server knows the clients that the TCP server keeps, `processAsyncQueue`
  -- returns: every answer that it sends is for a client that is still there, so that no
  -- deleted client is used. The clients stay, and the web server knows them after it.
  pub send_answers-returned :
      (st : State)
      → IsConnected env st
      → (t : State) × (send_answers st ≡ returned t)
        × IsConnected env t
        × (addresses t.client_list ≡ addresses st.client_list)
  unfolding send_answers
  send_answers-returned st h =
      let (ars, holds) = h.queue in
      let (left, (run, empty)) =
        process_async_queue-run (suc st.responses.size) st.clients st.responses ars holds
          (omega (arith, holds.room)) in
      let rs = deliveries st.clients ars in
      let st' : State = record st { responses = left } in
      let h' : IsConnected env st' = record {
        same = h.same;
        distinct = h.distinct;
        told = h.told;
        queue = ([], empty);
      } in
      let (t, sent, ht, same) =
        respond_all-returned rs st' h'
          (subst (λ ks. AreFor ks rs) h.same (deliveries-AreFor st.clients ars)) in
      (t, rw (send_answers, run) sent, ht, same)
