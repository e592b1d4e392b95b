-- ===== src/Web/TcpServer/Runs.antt =====
-- The clients that webserver/TcpServer.cpp keeps and webserver/WebServer.cpp knows, over every run of
-- the server.
use dumais_lib.Prelude.{
  ℕ, ◌≡◌, refl, ap, sym, subst, ◌∙◌, Bool, true, false, ◌||◌, Option, none, some, List, [], ◌∷◌,
  ◌++◌, Text, if◌then◌else◌,
}
use dumais_lib.Prelude.Maps.{lookup}
use dumais_lib.Web.Client.{Outcome, Ended, Client, send_loop}
use dumais_lib.Web.Observer.{Ending, returned, undefined, endless, ◌>>=◌, Peer, Peers, State, Setup}
use dumais_lib.Web.Observer.Peers.{addresses}
use dumais_lib.Web.Observer.Known.{EndsIn, EndsIn-bind, AreKnown, IsConnected}
use dumais_lib.Web.TcpServer.{
  Received, bytes, end_of_stream, reset, none_yet, receive_failed, abort, remove, receive,
  receive_round, receive_loop, process_receive, send_peer, send_peers, process_send,
}
use dumais_lib.Web.TcpServer.Connected.{remove-IsConnected, receive-IsConnected}

-- A function that returns does so with a value of both predicates.
pub EndsIn-both {ℓ} :
    {A : Type ℓ} (P Q : A → Type 0) (m : Ending A)
    → EndsIn P m
    → EndsIn Q m
    → EndsIn (λ a. P a × Q a) m
unfolding EndsIn
EndsIn-both P Q (returned a) h k = (h, k)
EndsIn-both P Q undefined h k = tt
EndsIn-both P Q endless h k = tt

abbrev SameAddress : Peer → Bool × Peer → Type 0
SameAddress p next = next.1.address ≡ p.address

abbrev SamePointers : Peers → Bool × Peers → Type 0
SamePointers m next = addresses next.1 ≡ addresses m

send_peer-address : (os : List Outcome) (p : Peer) → EndsIn (SameAddress p) (send_peer os p)
unfolding send_peer
send_peer-address os p = from (send_loop os p.sender).1.up p.receiver.failed (send_loop os p.sender)
  where
    from :
        (up failed : Bool) (l : Text × Ended × Client)
        → EndsIn (SameAddress p) (
            if up
            then if failed
              then undefined
              else returned (l.1.aborted, record p { sender = l.2; sent = p.sent ++ l.0 })
            else undefined)
    from true true l = unfold EndsIn in tt
    from true false l = unfold EndsIn in refl
    from false failed l = unfold EndsIn in tt

send_peers-SamePointers :
    (os : ℕ → List Outcome) (m : Peers) → EndsIn (SamePointers m) (send_peers os m)
unfolding send_peers
send_peers-SamePointers os [] = unfold EndsIn in refl
send_peers-SamePointers os ((fd, p) ∷ m) =
    EndsIn-bind (SameAddress p) (SamePointers ((fd, p) ∷ m)) (send_peer (os fd) p)
      (λ first. send_peers os m >>= λ rest. returned (first.0 || rest.0, (fd, first.1) ∷ rest.1))
      (send_peer-address (os fd) p)
      (λ first e.
        EndsIn-bind (SamePointers m) (SamePointers ((fd, p) ∷ m)) (send_peers os m)
          (λ rest. returned (first.0 || rest.0, (fd, first.1) ∷ rest.1))
          (send_peers-SamePointers os m) (λ rest same. joined first.0 first.1 rest.0 rest.1 e same))
  where
    joined :
        (b : Bool) (q : Peer) (c : Bool) (n : Peers)
        → q.address ≡ p.address
        → SamePointers m (c, n)
        → EndsIn (SamePointers ((fd, p) ∷ m)) (returned (b || c, (fd, q) ∷ n))
    joined b q c n e same =
        unfold EndsIn in
        unfold addresses in (ap (λ a. a ∷ addresses n) e ∙ ap (λ ks. p.address ∷ ks) same)

module _ (env : Setup) where
  abbrev IsNext : Bool × State → Type 0
  IsNext next = IsConnected env next.1

  receive_round-IsConnected :
      (fuel fd : ℕ) (call : Received) (st : State)
      → IsConnected env st
      → EndsIn IsNext (receive_round env fuel fd call st)
  unfolding receive_round
  receive_round-IsConnected fuel fd call st h =
      from (lookup fd st.client_list) refl st.stopping call
    where
      from :
          (o : Option Peer)
          → lookup fd st.client_list ≡ o
          → (b : Bool) (call : Received)
          → EndsIn IsNext (elim o [
            | none ↦ undefined
            | some p ↦ if b then returned (false, st) else elim call [
              | bytes data_read behind now ↦
                  receive env fuel fd p data_read behind now st >>= λ next. returned (true, next)
              | end_of_stream ↦ returned (false, remove env fuel fd p st)
              | reset ↦ returned (false, remove env fuel fd p st)
              | none_yet ↦ returned (false, st)
              | receive_failed ↦ returned (false, abort st)
            ]
          ])
      from none found b call = unfold EndsIn in tt
      from (some p) found true call = unfold EndsIn in h
      from (some p) found false (bytes data_read behind now) =
          EndsIn-bind (IsConnected env) IsNext (receive env fuel fd p data_read behind now st)
            (λ next. returned (true, next))
            (receive-IsConnected env fuel fd p data_read behind now st found h)
            (λ t k. unfold EndsIn in k)
      from (some p) found false end_of_stream =
          unfold EndsIn in remove-IsConnected env fuel fd p st found h
      from (some p) found false reset = unfold EndsIn in remove-IsConnected env fuel fd p st found h
      from (some p) found false none_yet = unfold EndsIn in h
      from (some p) found false receive_failed = unfold EndsIn in unfold abort in h

  receive_loop-IsConnected :
      (fuel fd : ℕ) (calls : List Received) (st : State)
      → IsConnected env st
      → EndsIn (IsConnected env) (receive_loop env fuel fd calls st)
  unfolding receive_loop
  receive_loop-IsConnected fuel fd [] st h = unfold EndsIn in h
  receive_loop-IsConnected fuel fd (call ∷ calls) st h =
      EndsIn-bind IsNext (IsConnected env) (receive_round env fuel fd call st)
        (λ next. elim (next.0) [
          | true ↦ receive_loop env fuel fd calls next.1
          | false ↦ returned next.1
        ])
        (receive_round-IsConnected fuel fd call st h)
        (λ next k. after next.0 next.1 (receive_loop-IsConnected fuel fd calls next.1 k) k)
    where
      after :
          (b : Bool) (t : State)
          → EndsIn (IsConnected env) (receive_loop env fuel fd calls t)
          → IsConnected env t
          → EndsIn
              (IsConnected env)
              (elim b [ true ↦ receive_loop env fuel fd calls t | false ↦ returned t ])
      after true t rest k = rest
      after false t rest k = unfold EndsIn in k

  pub process_receive-IsConnected :
      (fuel fd : ℕ) (calls : List Received) (st : State)
      → IsConnected env st
      → EndsIn (IsConnected env) (process_receive env fuel fd calls st)
  unfolding process_receive
  process_receive-IsConnected fuel fd calls st h = from (lookup fd st.client_list)
    where
      from :
          (o : Option Peer)
          → EndsIn
              (IsConnected env)
              (elim o [ none ↦ returned st | some p ↦ receive_loop env fuel fd calls st ])
      from none = unfold EndsIn in h
      from (some p) = receive_loop-IsConnected fuel fd calls st h

  pub process_send-IsConnected :
      (os : ℕ → List Outcome) (st : State)
      → IsConnected env st
      → EndsIn (IsConnected env) (process_send os st)
  unfolding process_send
  process_send-IsConnected os st h = from st.stopping
    where
      next_state : Bool × Peers → State
      next_state next = record st { client_list = next.1; stopping = next.0 }

      from :
          (b : Bool)
          → EndsIn (IsConnected env) (
              if b
              then returned st
              else send_peers os st.client_list >>= λ next. returned (next_state next))
      from true = unfold EndsIn in h
      from false =
          EndsIn-bind (SamePointers st.client_list) (IsConnected env) (send_peers os st.client_list)
            (λ next. returned (next_state next)) (send_peers-SamePointers os st.client_list)
            (λ next same.
              unfold EndsIn in
              subst (λ ks. AreKnown env.listener ks st.clients st.calls st.responses) (sym (same))
                h)
