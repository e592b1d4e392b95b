-- ===== src/Web/Client.antt =====
-- The sending side of webserver/TcpClient.cpp, and `TcpServer::processSend` of webserver/TcpServer.cpp
-- for one client.
use dumais_lib.Prelude.{
  ℕ, ◌+◌, Bool, true, false, Option, none, some, List, [], ◌∷◌, ◌++◌, Text, length, ◌==◌,
  if◌then◌else◌, take, drop,
}
use dumais_lib.Utils.RingBuffer.{Ring, empty_ring, put, get}

-- `SendBuffer`; every buffer is the client's own copy.
pub record SendBuffer : Type 0 where
  pub buffer : Text
  pub current_index : ℕ

-- `MAX_INTERNAL_TX_COUNT`.
abbrev pub max_internal_tx_count : ℕ
max_internal_tx_count = 4000

-- The members that sending uses; `current` is `currentSendBuffer`, `none` if its `buffer` is null.
pub record Client : Type 0 where
  pub tx_list : Ring SendBuffer
  pub current : Option SendBuffer

abbrev pub no_buffer : SendBuffer
no_buffer = record { buffer = []; current_index = 0 }

unfoldable pub new_client : Client
new_client = record { tx_list = empty_ring no_buffer max_internal_tx_count; current = none }

-- `sendData`: what does not fit is dropped.
unfoldable pub send_data : Client → Text → Client
unfolding put
send_data c bytes = record c {
  tx_list = (put c.tx_list (record { buffer = bytes; current_index = 0 })).1;
}

-- `getTxData`: the next buffer becomes the current one; the data is what is left of it, and none if
-- there is no buffer.
unfoldable pub refill : Option SendBuffer → Ring SendBuffer → Client
unfolding get
refill none ring = record { tx_list = (get ring).1; current = (get ring).0 }
refill (some b) ring = record { tx_list = ring; current = some b }

unfoldable pub next_buffer : Client → Client
unfolding refill
next_buffer c = refill c.current c.tx_list

unfoldable pub left_of : Option SendBuffer → Text
left_of none = []
left_of (some b) = drop b.current_index b.buffer

unfoldable pub get_tx_data : Client → Text × Client
unfolding next_buffer left_of
get_tx_data c = (left_of (next_buffer c).current, next_buffer c)

-- `onDataSent`.
unfoldable pub sent_of : Option SendBuffer → ℕ → Option SendBuffer
sent_of none n = none
sent_of (some b) n =
    if b.current_index + n == length b.buffer
    then none
    else some (record b { current_index = b.current_index + n })

unfoldable pub on_data_sent : Client → ℕ → Client
unfolding sent_of
on_data_sent c n = record c { current = sent_of c.current n }

-- What a call of the socket's `send` returns: -1 with the error `EAGAIN` or another one, 0, or that a
-- number of bytes is sent.
pub data Outcome : Type 0 where
  again send_failed lost : Outcome
  sent : ℕ → Outcome

-- How the loop of `processSend` ends for a client: whether it is still connected, and whether `abort`
-- has been called.
pub record Ended : Type 0 where
  pub up : Bool
  pub aborted : Bool

abbrev pub still_up : Ended
still_up = record { up = true; aborted = false }

-- The body of the loop of `processSend`, with the rounds that follow it.
unfoldable pub after_send :
    (Client → Text × Ended × Client) → Outcome → Text × Client → Text × Ended × Client
unfolding on_data_sent
after_send rounds o ([], c) = ([], still_up, c)
after_send rounds again (b ∷ bytes, c) = rounds c
after_send rounds send_failed (b ∷ bytes, c) =
    let (out, ended, c') = rounds c in (out, record ended { aborted = true }, c')
after_send rounds lost (b ∷ bytes, c) = ([], record { up = false; aborted = false }, c)
after_send rounds (sent n) (b ∷ bytes, c) =
    let (out, ended, c') = rounds (on_data_sent c n) in (take n (b ∷ bytes) ++ out, ended, c')

-- The loop, on the outcomes of its calls of `send` in turn: the bytes that have gone out, how it ends,
-- and the client. The loop ends when the client has no data.
unfoldable pub send_loop : List Outcome → Client → Text × Ended × Client
unfolding get_tx_data after_send
send_loop [] c = ([], still_up, c)
send_loop (o ∷ os) c = after_send (send_loop os) o (get_tx_data c)
