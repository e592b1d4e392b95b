-- ===== src/Web/TcpServer/Turns.antt =====
-- The loop of `TcpServer::run` of webserver/TcpServer.cpp: what holds after any turns of it.
use dumais_lib.Prelude.{ℕ, Bool, true, false, List, [], ◌∷◌, if◌then◌else◌}
use dumais_lib.Web.Auth.{Server}
use dumais_lib.Web.Client.{Outcome}
use dumais_lib.Web.Observer.{returned, ◌>>=◌, State, Setup, new_state, send_answers}
use dumais_lib.Web.Observer.Known.{
  EndsIn, EndsIn-bind, IsConnected, new_state-IsConnected, answered-IsConnected,
}
use dumais_lib.Web.Observer.Answering.{send_answers-returned}
use dumais_lib.Web.TcpServer.{
  process_send, Event, acceptable, readable, woken, handle, handle_all, abort, round, Turn, served,
  given, stopped, turn, turns,
}
use dumais_lib.Web.TcpServer.Connected.{AreNew, accept_event-IsConnected}
use dumais_lib.Web.TcpServer.Runs.{
  EndsIn-both, process_receive-IsConnected, process_send-IsConnected,
}

module _ (env : Setup) where
  -- The connections that are accepted have descriptors and pointers that no client has then.
  unfoldable pub IsNewEvent : Event → State → Type 0
  IsNewEvent (acceptable calls) st = AreNew env calls st
  IsNewEvent (readable fuel fd calls) st = Unit
  IsNewEvent woken st = Unit

  unfoldable pub AreNewEvents : List Event → State → Type 0
  unfolding IsNewEvent EndsIn
  AreNewEvents [] st = Unit
  AreNewEvents (e ∷ es) st = IsNewEvent e st × EndsIn (AreNewEvents es) (handle env e st)

  unfoldable pub IsNewTurn : Turn → State → Type 0
  unfolding AreNewEvents
  IsNewTurn (served es os) st = AreNewEvents es st
  IsNewTurn (given a cookie resp) st = Unit
  IsNewTurn stopped st = Unit

  unfoldable pub AreNewTurns : List Turn → State → Type 0
  unfolding IsNewTurn EndsIn
  AreNewTurns [] st = Unit
  AreNewTurns (t ∷ ts) st = IsNewTurn t st × EndsIn (AreNewTurns ts) (turn env t st)

  handle-IsConnected :
      (e : Event) (st : State)
      → IsNewEvent e st
      → IsConnected env st
      → EndsIn (IsConnected env) (handle env e st)
  unfolding handle IsNewEvent
  handle-IsConnected (acceptable calls) st n h =
      unfold EndsIn in accept_event-IsConnected env calls st n h
  handle-IsConnected (readable fuel fd calls) st n h =
      process_receive-IsConnected env fuel fd calls st h
  handle-IsConnected woken st n h = unfold EndsIn in h

  handle_all-IsConnected :
      (es : List Event) (st : State)
      → AreNewEvents es st
      → IsConnected env st
      → EndsIn (IsConnected env) (handle_all env es st)
  unfolding handle_all AreNewEvents
  handle_all-IsConnected [] st n h = unfold EndsIn in h
  handle_all-IsConnected (e ∷ es) st (n, later) h =
      EndsIn-bind (λ s. IsConnected env s × AreNewEvents es s) (IsConnected env) (handle env e st)
        (handle_all env es)
        (EndsIn-both (IsConnected env) (AreNewEvents es) (handle env e st)
          (handle-IsConnected e st n h) later)
        (λ s k. handle_all-IsConnected es s k.1 k.0)

  send_answers-IsConnected :
      (st : State) → IsConnected env st → EndsIn (IsConnected env) (send_answers st)
  send_answers-IsConnected st h =
      let (t, e, k, same) = send_answers-returned env st h in rw e (unfold EndsIn in k)

  round-IsConnected :
      (es : List Event) (os : ℕ → List Outcome) (st : State)
      → AreNewEvents es st
      → IsConnected env st
      → EndsIn (IsConnected env) (round env es os st)
  unfolding round
  round-IsConnected es os st n h =
      EndsIn-bind (IsConnected env) (IsConnected env) (handle_all env es st >>= send_answers)
        (process_send os)
        (EndsIn-bind (IsConnected env) (IsConnected env) (handle_all env es st) send_answers
          (handle_all-IsConnected es st n h) send_answers-IsConnected)
        (process_send-IsConnected env os)

  turn-IsConnected :
      (t : Turn) (st : State)
      → IsNewTurn t st
      → IsConnected env st
      → EndsIn (IsConnected env) (turn env t st)
  unfolding turn IsNewTurn
  turn-IsConnected (served es os) st n h = from st.stopping
    where
      from : (b : Bool) → EndsIn (IsConnected env) (if b then returned st else round env es os st)
      from true = unfold EndsIn in h
      from false = round-IsConnected es os st n h
  turn-IsConnected (given a cookie resp) st n h =
      unfold EndsIn in answered-IsConnected env a cookie resp st h
  turn-IsConnected stopped st n h = unfold EndsIn in unfold abort in h

  turns-IsConnected :
      (ts : List Turn) (st : State)
      → AreNewTurns ts st
      → IsConnected env st
      → EndsIn (IsConnected env) (turns env ts st)
  unfolding turns AreNewTurns
  turns-IsConnected [] st n h = unfold EndsIn in h
  turns-IsConnected (t ∷ ts) st (n, later) h =
      EndsIn-bind (λ s. IsConnected env s × AreNewTurns ts s) (IsConnected env) (turn env t st)
        (turns env ts)
        (EndsIn-both (IsConnected env) (AreNewTurns ts) (turn env t st) (turn-IsConnected t st n h)
          later)
        (λ s k. turns-IsConnected ts s k.1 k.0)

  -- Whatever the operating system's calls return, the clients send, the listener answers
  -- later, and whenever `stop` is called: in every state that turns of the server's loop
  -- return from its start, the clients that the web server knows are the ones that the TCP
  -- server keeps, no two of them are one, the listener, if there is one, has heard of as many
  -- connections as of ends and open connections together, and the ring of the answers is a
  -- queue. The connections that are accepted have descriptors and pointers that no client has
  -- at the time.
  pub turns_new-IsConnected :
      (ts : List Turn) (auth : Server)
      → AreNewTurns ts (new_state auth)
      → EndsIn (IsConnected env) (turns env ts (new_state auth))
  turns_new-IsConnected ts auth n =
      turns-IsConnected ts (new_state auth) n (new_state-IsConnected env auth)
