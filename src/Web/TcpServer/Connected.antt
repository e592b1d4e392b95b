-- ===== src/Web/TcpServer/Connected.antt =====
-- The clients that webserver/TcpServer.cpp keeps and webserver/WebServer.cpp knows, over every run of
-- the server.
use dumais_lib.Prelude.{
  ℕ, suc, ◌≡◌, refl, ap, sym, subst, ◌∙◌, arith, Bool, true, false, Option, none, some, List, [],
  ◌∷◌, ◌++◌, Text, length, length-append, if◌then◌else◌,
}
use dumais_lib.Prelude.Maps.{lookup, insert}
use dumais_lib.Web.Framing.{Receiver, on_receive}
use dumais_lib.Web.Serving.{has_client, on_client_connected, on_client_disconnected}
use dumais_lib.Web.Observer.{
  endless, ◌>>=◌, Peer, State, Setup, Readings, opened, closed, called, connected, disconnected,
  on_messages, on_errors,
}
use dumais_lib.Web.Observer.Peers.{
  addresses, AreDistinct, addresses-insert_new, addresses-insert_same, has_client-lookup,
  addresses-erase, AreDistinct-append, AreDistinct-disconnected, length-disconnected,
}
use dumais_lib.Web.Observer.Known.{
  EndsIn, EndsIn-bind, AreKnown, IsTold, IsConnected, called_opened-IsTold, called_closed-IsTold,
  on_messages-IsConnected, on_errors-IsConnected,
}
use dumais_lib.Web.TcpServer.{
  new_peer, Accepted, connection, none_left, accept_failed, take_connection, accept_loop,
  process_accept, abort_unless, accept_event, remove, receive,
}

module _ (env : Setup) where
  -- Descriptors and pointers that no client has at the time.
  unfoldable pub AreNew : List Accepted → State → Type 0
  AreNew [] st = Unit
  AreNew (none_left ∷ calls) st = Unit
  AreNew (accept_failed ∷ calls) st = Unit
  AreNew (connection fd address ∷ calls) st =
      (lookup fd st.client_list ≡ none)
      × (has_client address (addresses st.client_list) ≡ false)
      × AreNew calls (take_connection env fd address st)

  on_client_connected-new :
      (a : ℕ) (ks : List ℕ) → has_client a ks ≡ false → on_client_connected a ks ≡ ks ++ a ∷ []
  unfolding on_client_connected
  on_client_connected-new a ks h = rw h refl

  pub take_connection-IsConnected :
      (fd a : ℕ) (st : State)
      → lookup fd st.client_list ≡ none
      → has_client a (addresses st.client_list) ≡ false
      → IsConnected env st
      → IsConnected env (take_connection env fd a st)
  unfolding take_connection connected new_peer
  take_connection-IsConnected fd a st free new h =
      let grown : addresses (insert fd (new_peer a) st.client_list)
          ≡ addresses st.client_list ++ a ∷ [] =
        addresses-insert_new fd (new_peer a) st.client_list free in
      let size : length (addresses st.client_list ++ a ∷ [])
          ≡ suc (length (addresses st.client_list)) =
        omega (arith, length-append (addresses st.client_list) (a ∷ [])) in
      record {
        same =
            ap (on_client_connected a) h.same
            ∙ on_client_connected-new a (addresses st.client_list) new
            ∙ sym grown;
        distinct =
            subst AreDistinct (sym grown)
              (AreDistinct-append a (addresses st.client_list) h.distinct new);
        told =
            subst (IsTold env.listener (called env.listener opened st.calls))
              (sym (ap length grown ∙ size))
              (called_opened-IsTold env.listener st.calls (length (addresses st.client_list))
                h.told);
        queue = h.queue;
      }

  accept_loop-IsConnected :
      (calls : List Accepted) (st : State)
      → AreNew calls st
      → IsConnected env st
      → IsConnected env (accept_loop env calls st).1
  unfolding accept_loop AreNew
  accept_loop-IsConnected [] st n h = h
  accept_loop-IsConnected (none_left ∷ calls) st n h = h
  accept_loop-IsConnected (accept_failed ∷ calls) st n h = h
  accept_loop-IsConnected (connection fd a ∷ calls) st (free, new, n) h =
      accept_loop-IsConnected calls (take_connection env fd a st) n
        (take_connection-IsConnected fd a st free new h)

  abort_unless-IsConnected :
      (result : Bool × State) → IsConnected env result.1 → IsConnected env (abort_unless env result)
  unfolding abort_unless
  abort_unless-IsConnected (true, st) h = h
  abort_unless-IsConnected (false, st) h = h

  pub accept_event-IsConnected :
      (calls : List Accepted) (st : State)
      → AreNew calls st
      → IsConnected env st
      → IsConnected env (accept_event env calls st)
  unfolding accept_event process_accept
  accept_event-IsConnected calls st n h = abort_unless-IsConnected (process_accept env calls st) (
      either st.stopping (false, st) (accept_loop env calls st) h
        (accept_loop-IsConnected calls st n h))
    where
      either :
          (b : Bool) (x y : Bool × State)
          → IsConnected env x.1
          → IsConnected env y.1
          → IsConnected env (if b then x else y).1
      either true x y h k = h
      either false x y h k = k

  pub remove-IsConnected :
      (fuel fd : ℕ) (p : Peer) (st : State)
      → lookup fd st.client_list ≡ some p
      → IsConnected env st
      → IsConnected env (remove env fuel fd p st)
  unfolding remove disconnected
  remove-IsConnected fuel fd p st found h =
      let ks = addresses st.client_list in
      let left = addresses-erase fd p st.client_list found h.distinct in
      let there : has_client p.address ks ≡ true = has_client-lookup fd p st.client_list found in
      record {
        same = ap (on_client_disconnected p.address) h.same ∙ sym left;
        distinct = subst AreDistinct (sym left) (AreDistinct-disconnected p.address ks h.distinct);
        told =
            subst (IsTold env.listener (called env.listener closed st.calls)) (sym (ap length left))
              (called_closed-IsTold env.listener st.calls
                (length (on_client_disconnected p.address ks))
                (subst (IsTold env.listener st.calls)
                  (length-disconnected p.address ks h.distinct there) h.told));
        queue = h.queue;
      }

  pub receive-IsConnected :
      (fuel fd : ℕ) (p : Peer) (data_read behind : Text) (now : ℕ → Readings) (st : State)
      → lookup fd st.client_list ≡ some p
      → IsConnected env st
      → EndsIn (IsConnected env) (receive env fuel fd p data_read behind now st)
  unfolding receive
  receive-IsConnected fuel fd p data_read behind now st found h = from (
      on_receive env.rx env.atoi behind fuel (record (p.receiver) { messages = []; errors = [] })
        data_read)
    where
      from :
          (o : Option (Bool × Receiver))
          → EndsIn (IsConnected env) (elim o [
            | none ↦ endless
            | some (ok, r) ↦
                on_messages env now 0 p.address r.messages
                  (record st { client_list = insert fd (record p { receiver = r }) st.client_list })
                >>= on_errors p.address r.errors
          ])
      from none = unfold EndsIn in tt
      from (some (ok, r)) =
          let q : Peer = record p { receiver = r } in
          let st' : State = record st { client_list = insert fd q st.client_list } in
          let h' : IsConnected env st' =
            subst (λ ks. AreKnown env.listener ks st.clients st.calls st.responses)
              (sym (addresses-insert_same fd p q st.client_list found refl)) h in
          EndsIn-bind (IsConnected env) (IsConnected env)
            (on_messages env now 0 p.address r.messages st') (on_errors p.address r.errors)
            (on_messages-IsConnected env now 0 p.address r.messages st' h')
            (λ t k. on_errors-IsConnected env p.address r.errors t k)
