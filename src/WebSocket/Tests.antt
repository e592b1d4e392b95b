-- ===== src/WebSocket/Tests.antt =====
-- Runs of the parser and of the loop of websocket/ on the data of clients.
use dumais_lib.Prelude.{
  ◌-◌, ◌^◌, ◌≤◌, Bool, true, false, none, some, [], ◌∷◌, ◌++◌, ◌≡◌, refl, Text, codes, map, arith,
}
use dumais_lib.Utils.RingBuffer.{empty_ring}
use dumais_lib.WebSocket.Parser.{new_parser, header_size_of, payload_size, to_read}
use dumais_lib.WebSocket.Connection.{Connection, SendBuffer, connected, process_frames}
use dumais_lib.WebSocket.Stream.{IsFrame, reading}
use dumais_lib.WebSocket.Clients.{
  Sent, IsSent, AreBytes, masked_by, masked, client_frame, received, size_byte, extension,
}
use dumais_lib.WebSocket.Delivery.{AreSent, stream, process_frames-stream}
use dumais_lib.WebSocket.Stall.{process_frames-empty, process_frames-unknown}
use dumais_lib.WebSocket.Sizes.{to_read-signed}

abbrev blank : SendBuffer
blank = record { buffer = []; current_index = 0 }

abbrev fresh : Connection
fresh = record {
  state = connected;
  ws_parser = new_parser;
  tx_list = empty_ring blank 3;
  current = none;
  closing_time = 0;
  delivered = [];
}

abbrev key : Text
key = 55 ∷ 250 ∷ 33 ∷ 61 ∷ []

abbrev hello : Sent
hello = record { opcode = 1; key = key; text = codes "Hello" }

abbrev bye : Sent
bye = record { opcode = 2; key = key; text = 1 ∷ 2 ∷ [] }

key-AreBytes : AreBytes key
unfolding AreBytes
key-AreBytes = (omega arith, (omega arith, (omega arith, (omega arith, tt))))

hello-IsSent : (signed : Bool) → IsSent signed hello
unfolding AreBytes
hello-IsSent true = record {
  data_opcode = omega arith;
  key_size = refl;
  key_bytes = key-AreBytes;
  text_bytes = (omega arith, (omega arith, (omega arith, (omega arith, (omega arith, tt)))));
  text_filled = omega arith;
  text_size = omega arith;
}
hello-IsSent false = record {
  data_opcode = omega arith;
  key_size = refl;
  key_bytes = key-AreBytes;
  text_bytes = (omega arith, (omega arith, (omega arith, (omega arith, (omega arith, tt)))));
  text_filled = omega arith;
  text_size = omega arith;
}

bye-IsSent : IsSent false bye
unfolding AreBytes
bye-IsSent = record {
  data_opcode = omega arith;
  key_size = refl;
  key_bytes = key-AreBytes;
  text_bytes = (omega arith, (omega arith, tt));
  text_filled = omega arith;
  text_size = omega arith;
}

process_frames-stream_example :
    process_frames false 0 6 fresh (stream (hello ∷ bye ∷ []))
    ≡ some (record fresh { delivered = map received (hello ∷ bye ∷ []) })
unfolding AreSent stream client_frame size_byte extension masked masked_by
process_frames-stream_example =
    process_frames-stream false 0 6 fresh (hello ∷ bye ∷ []) (hello-IsSent false, (bye-IsSent, tt))
      (omega arith) refl (omega arith)

-- An empty masked ping, and one byte behind it.
process_frames-empty_example : process_frames true 0 10 fresh (137 ∷ 128 ∷ (key ++ 129 ∷ [])) ≡ none
unfolding header_size_of payload_size
process_frames-empty_example =
    process_frames-empty true 0 8 fresh 137 128 key 129 [] refl refl refl (omega arith) refl

pong-IsFrame : IsFrame true 138 129 key (5 ∷ [])
unfolding header_size_of payload_size
pong-IsFrame = record { masked = refl; whole = refl; announced = refl; filled = λ e. cc }

process_frames-unknown_example :
    process_frames true 0 10 fresh (138 ∷ 129 ∷ (key ++ (5 ∷ [] ++ 129 ∷ []))) ≡ none
process_frames-unknown_example =
    process_frames-unknown true 0 7 fresh 138 129 key (5 ∷ []) 129 [] pong-IsFrame refl
      (omega arith) refl

to_read-signed_example : 2 ^ 64 - 8 ≤ to_read (reading true 129 254 (1 ∷ 255 ∷ key)) 10
to_read-signed_example =
    to_read-signed 129 1 255 10 key (omega arith) (omega arith) (omega arith) refl (omega arith)
