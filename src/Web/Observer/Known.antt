-- ===== src/Web/Observer/Known.antt =====
-- That webserver/WebServer.cpp knows the clients that webserver/TcpServer.cpp keeps, in what the calls
-- of the observer do.
use dumais_lib.Prelude.{
  ℕ, suc, ◌+◌, ◌≡◌, refl, sym, subst, arith, Option, none, some, List, [], ◌∷◌, ◌++◌, Text, length,
}
use dumais_lib.Utils.RingBuffer.{Ring}
use dumais_lib.Utils.RingBuffer.Refine.{Holds, put-Holds, empty_ring-Holds}
use dumais_lib.Web.Client.{Client}
use dumais_lib.Web.Request.{Request}
use dumais_lib.Web.Auth.{Server}
use dumais_lib.Web.Response.{Response, with_header, send_response}
use dumais_lib.Web.Serving.{
  Action, replied, deferred, on_client_message, on_framing_error, AsyncResponse, answer,
}
use dumais_lib.Web.Observer.{
  Ending, returned, undefined, endless, ◌>>=◌, Call, opened, closed, asked, State, Setup, Readings,
  new_state, sender_at, set_sender, respond, respond_if, called, perform, on_message, on_messages,
  on_errors, answered,
}
use dumais_lib.Web.Observer.Peers.{addresses, AreDistinct, addresses-set_sender}

-- A function that returns does so with a value of the predicate.
unfoldable pub EndsIn {ℓ} : {A : Type ℓ} → (A → Type 0) → Ending A → Type 0
EndsIn P (returned a) = P a
EndsIn P undefined = Unit
EndsIn P endless = Unit

pub EndsIn-bind {ℓ κ} :
    {A : Type ℓ} {B : Type κ} (P : A → Type 0) (Q : B → Type 0) (m : Ending A) (f : A → Ending B)
    → EndsIn P m
    → ((a : A) → P a → EndsIn Q (f a))
    → EndsIn Q (m >>= f)
unfolding EndsIn
EndsIn-bind P Q (returned a) f h k = k a h
EndsIn-bind P Q undefined f h k = tt
EndsIn-bind P Q endless f h k = tt

pub EndsIn-returned {ℓ} :
    {A : Type ℓ} (P : A → Type 0) (m : Ending A) (a : A) → m ≡ returned a → EndsIn P m → P a
EndsIn-returned P m a e h =
    let k : EndsIn P (returned a) = subst (EndsIn P) e h in unfold EndsIn in k

unfoldable pub opens : List Call → ℕ
opens [] = 0
opens (opened ∷ cs) = suc (opens cs)
opens (closed ∷ cs) = opens cs
opens (asked a cookie q ∷ cs) = opens cs

unfoldable pub closes : List Call → ℕ
closes [] = 0
closes (opened ∷ cs) = closes cs
closes (closed ∷ cs) = suc (closes cs)
closes (asked a cookie q ∷ cs) = closes cs

-- The listener, if there is one, has heard of every connection that is open, and of the end of every
-- other one.
unfoldable pub IsTold : Option (Request → Option Response) → List Call → ℕ → Type 0
unfolding opens closes
IsTold none calls n = calls ≡ []
IsTold (some run) calls n = opens calls ≡ closes calls + n

-- The web server knows the clients, of which no two are one, the listener has been told of them, and
-- the ring of the answers is a queue.
pub record AreKnown (listener : Option (Request → Option Response)) (ks clients : List ℕ)
    (calls : List Call) (responses : Ring AsyncResponse) : Type 0 where
  pub same : clients ≡ ks
  pub distinct : AreDistinct ks
  pub told : IsTold listener calls (length ks)
  pub queue : (ars : List AsyncResponse) × Holds responses ars

abbrev pub IsConnected : Setup → State → Type 0
IsConnected env st =
    AreKnown env.listener (addresses st.client_list) st.clients st.calls st.responses

opens-append : (cs ds : List Call) → opens (cs ++ ds) ≡ opens cs + opens ds
unfolding opens
opens-append [] ds = omega arith
opens-append (opened ∷ cs) ds = omega (arith, opens-append cs ds)
opens-append (closed ∷ cs) ds = opens-append cs ds
opens-append (asked a cookie q ∷ cs) ds = opens-append cs ds

closes-append : (cs ds : List Call) → closes (cs ++ ds) ≡ closes cs + closes ds
unfolding closes
closes-append [] ds = omega arith
closes-append (opened ∷ cs) ds = closes-append cs ds
closes-append (closed ∷ cs) ds = omega (arith, closes-append cs ds)
closes-append (asked a cookie q ∷ cs) ds = closes-append cs ds

pub called_opened-IsTold :
    (l : Option (Request → Option Response)) (calls : List Call) (n : ℕ)
    → IsTold l calls n
    → IsTold l (called l opened calls) (suc n)
unfolding IsTold called
called_opened-IsTold none calls n h = h
called_opened-IsTold (some run) calls n h =
    omega (arith, opens-append calls (opened ∷ []), closes-append calls (opened ∷ []))

pub called_closed-IsTold :
    (l : Option (Request → Option Response)) (calls : List Call) (n : ℕ)
    → IsTold l calls (suc n)
    → IsTold l (called l closed calls) n
unfolding IsTold called
called_closed-IsTold none calls n h = h
called_closed-IsTold (some run) calls n h =
    omega (arith, opens-append calls (closed ∷ []), closes-append calls (closed ∷ []))

called_asked-IsTold :
    (l : Option (Request → Option Response)) (a : ℕ) (cookie : Text) (q : Request)
    (calls : List Call) (n : ℕ)
    → IsTold l calls n
    → IsTold l (called l (asked a cookie q) calls) n
unfolding IsTold called
called_asked-IsTold none a cookie q calls n h = h
called_asked-IsTold (some run) a cookie q calls n h =
    omega (
      arith,
      opens-append calls (asked a cookie q ∷ []),
      closes-append calls (asked a cookie q ∷ []),
    )

module _ (env : Setup) where
  pub new_state-IsConnected : (auth : Server) → IsConnected env (new_state auth)
  unfolding new_state addresses AreDistinct
  new_state-IsConnected auth = record {
    same = refl;
    distinct = tt;
    told = start env.listener;
    queue = ([], empty_ring-Holds _ 200 (omega arith) (omega arith));
  }
    where
      start : (l : Option (Request → Option Response)) → IsTold l [] 0
      start none = unfold IsTold in refl
      start (some run) = unfold IsTold in refl

  -- A response changes what a client has to send, and nothing else that is known.
  pub respond-IsConnected :
      (r : Response) (a : ℕ) (st : State)
      → IsConnected env st
      → EndsIn (IsConnected env) (respond r a st)
  unfolding respond
  respond-IsConnected r a st h = from (sender_at a st.client_list)
    where
      sent : (o : Option Client) → Ending State
      sent o = elim o [
        | none ↦ endless
        | some d ↦ returned (record st { client_list = set_sender a d st.client_list })
      ]

      sent-IsConnected : (o : Option Client) → EndsIn (IsConnected env) (sent o)
      sent-IsConnected none = unfold EndsIn in tt
      sent-IsConnected (some d) =
          unfold EndsIn in
          subst (λ ks. AreKnown env.listener ks st.clients st.calls st.responses)
            (sym (addresses-set_sender a d st.client_list)) h

      from :
          (o : Option Client)
          → EndsIn (IsConnected env) (elim o [
            | none ↦ undefined
            | some c ↦ elim (send_response (suc (length (with_header r).content)) r c) [
              | none ↦ endless
              | some d ↦ returned (record st { client_list = set_sender a d st.client_list })
            ]
          ])
      from none = unfold EndsIn in tt
      from (some c) = sent-IsConnected (send_response (suc (length (with_header r).content)) r c)

  respond_if-IsConnected :
      (r : Option Response) (a : ℕ) (st : State)
      → IsConnected env st
      → EndsIn (IsConnected env) (respond_if r a st)
  unfolding respond_if EndsIn
  respond_if-IsConnected none a st h = h
  respond_if-IsConnected (some r) a st h = respond-IsConnected r a st h

  perform-IsConnected :
      (action : Action) (a : ℕ) (st : State)
      → IsConnected env st
      → EndsIn (IsConnected env) (perform env action a st)
  unfolding perform EndsIn
  perform-IsConnected (replied r) a st h = respond_if-IsConnected r a st h
  perform-IsConnected (deferred cookie q) a st h = record {
    same = h.same;
    distinct = h.distinct;
    told =
        called_asked-IsTold env.listener a cookie q st.calls (length (addresses st.client_list))
          h.told;
    queue = h.queue;
  }

  on_message-IsConnected :
      (now : Readings) (a : ℕ) (buffer : Text) (st : State)
      → IsConnected env st
      → EndsIn (IsConnected env) (on_message env now a buffer st)
  unfolding on_message
  on_message-IsConnected now a buffer st h =
      from (on_client_message env.rx env.async env.listener now.t0 now.t1 now.rand st.auth buffer)
    where
      from :
          (o : Option (Action × Server))
          → EndsIn (IsConnected env) (elim o [
            | none ↦ undefined
            | some (action, auth) ↦ perform env action a (record st { auth = auth })
          ])
      from none = unfold EndsIn in tt
      from (some (action, auth)) = perform-IsConnected action a (record st { auth = auth }) h

  pub on_messages-IsConnected :
      (now : ℕ → Readings) (i a : ℕ) (buffers : List Text) (st : State)
      → IsConnected env st
      → EndsIn (IsConnected env) (on_messages env now i a buffers st)
  unfolding on_messages
  on_messages-IsConnected now i a [] st h = unfold EndsIn in h
  on_messages-IsConnected now i a (buffer ∷ buffers) st h =
      EndsIn-bind (IsConnected env) (IsConnected env) (on_message env (now i) a buffer st)
        (on_messages env now (i + 1) a buffers) (on_message-IsConnected (now i) a buffer st h)
        (λ t k. on_messages-IsConnected now (i + 1) a buffers t k)

  pub on_errors-IsConnected :
      (a : ℕ) (errors : List ℕ) (st : State)
      → IsConnected env st
      → EndsIn (IsConnected env) (on_errors a errors st)
  unfolding on_errors
  on_errors-IsConnected a [] st h = unfold EndsIn in h
  on_errors-IsConnected a (error ∷ errors) st h =
      EndsIn-bind (IsConnected env) (IsConnected env) (respond (on_framing_error error) a st)
        (on_errors a errors) (respond-IsConnected (on_framing_error error) a st h)
        (λ t k. on_errors-IsConnected a errors t k)

  pub answered-IsConnected :
      (a : ℕ) (cookie : Text) (resp : Option Response) (st : State)
      → IsConnected env st
      → IsConnected env (answered a cookie resp st)
  unfolding answered answer
  answered-IsConnected a cookie resp st h = record {
    same = h.same;
    distinct = h.distinct;
    told = h.told;
    queue = put-Holds st.responses h.queue.0 _ h.queue.1;
  }
