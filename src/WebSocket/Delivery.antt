-- ===== src/WebSocket/Delivery.antt =====
-- What `WebSocket::processData` of websocket/WebSocket.cpp makes of the frames of clients.
use dumais_lib.Prelude.{
  ℕ, zero, suc, ◌+◌, ◌-◌, ◌*◌, ◌/◌, ◌%◌, ◌^◌, ◌≤◌, ◌<◌, ◌≡◌, refl, ap, sym, ◌∙◌, arith, Bool, true,
  some, List, [], ◌∷◌, ◌++◌, Text, length, map, subst, ap₂, take, drop, take-append, drop-append,
  length-append, append-nil, append_assoc,
}
use dumais_lib.WebSocket.Parser.{new_parser, header_size_of, reset_message_buffer}
use dumais_lib.WebSocket.Stream.{IsFrame, process_frames-frame, complete-reset, filled-length}
use dumais_lib.WebSocket.Connection.{
  Connection, Message, process_frames, process_packet, unmask, is_data,
}
use dumais_lib.WebSocket.Clients.{
  AreBytes, Sent, size_byte, extension, client_frame, received, IsSent, unmask_twice, masked-unmask,
  length-unmask, size_byte-masked, header_size-size_byte, payload_size-size_byte,
}

key_of : (head key r : Text) → take (length key) (drop (length head) ((head ++ key) ++ r)) ≡ key
key_of head key r = rw (append_assoc head key r, drop-append head (key ++ r)) (take-append key r)

payload_of : (head r : Text) → take (length r) (drop (length head) (head ++ r)) ≡ r
payload_of head r =
    rw (drop-append head r) (ap (take (length r)) (sym (append-nil r)) ∙ take-append r [])

-- The message that a whole frame with a data opcode makes.
process_packet-data :
    (now : ℕ) (c : Connection) (op second : ℕ) (ext key payload : Text)
    → op < 3
    → length key ≡ 4
    → header_size_of second ≡ 6 + length ext
    → process_packet now c
        (header_size_of second)
        (length payload)
        ((128 + op) ∷ second ∷ ((ext ++ key) ++ payload))
      ≡ record c {
        ws_parser = reset_message_buffer c.ws_parser;
        delivered =
            c.delivered ++ (record { buffer = unmask key 0 payload; type = op; fin = 1 }) ∷ [];
      }
unfolding process_packet
process_packet-data now c op second ext key payload small four size =
    let first = 128 + op in
    let is : is_data (first % 16) ≡ true = ground arith in
    let op' : first % 16 ≡ op = ground arith in
    let fin' : first / 128 ≡ 1 = ground arith in
    let at : header_size_of second - 4 ≡ length (first ∷ second ∷ ext) = omega (arith, size) in
    let whole : header_size_of second ≡ length (first ∷ second ∷ (ext ++ key)) =
      omega (arith, size, length-append ext key) in
    let key' : take 4
          (drop (header_size_of second - 4) (first ∷ second ∷ ((ext ++ key) ++ payload)))
        ≡ key =
      rw (at, sym four) (key_of (first ∷ second ∷ ext) key payload) in
    let payload' : take (length payload)
          (drop (header_size_of second) (first ∷ second ∷ ((ext ++ key) ++ payload)))
        ≡ payload =
      rw whole (payload_of (first ∷ second ∷ (ext ++ key)) payload) in
    rw (is, key', payload', op', fin')

-- What the connection has after the message.
abbrev deliver : Connection → List Message → Connection
deliver c ms = record c { ws_parser = new_parser; delivered = c.delivered ++ ms }

client_frame-append :
    (m : Sent) (rest : Text)
    → client_frame m ++ rest
      ≡ (128 + m.opcode)
        ∷ size_byte (length m.text)
        ∷ ((extension (length m.text) ++ m.key) ++ (unmask m.key 0 m.text ++ rest))
unfolding client_frame
client_frame-append m rest =
    ap
      (λ t.
        ((128 + m.opcode) ∷ size_byte (length m.text) ∷ ((extension (length m.text) ++ m.key) ++ t))
        ++ rest)
      (masked-unmask m.key m.text)
    ∙ ap (λ s. (128 + m.opcode) ∷ size_byte (length m.text) ∷ s)
        (append_assoc (extension (length m.text) ++ m.key) (unmask m.key 0 m.text) rest)

IsSent-IsFrame :
    (signed : Bool) (m : Sent)
    → IsSent signed m
    → IsFrame signed
        (128 + m.opcode)
        (size_byte (length m.text))
        (extension (length m.text) ++ m.key)
        (unmask m.key 0 m.text)
IsSent-IsFrame signed m h =
    let n = length m.text in
    let n' : length (unmask m.key 0 m.text) ≡ n = length-unmask m.key 0 m.text in
    record {
      masked = size_byte-masked n;
      whole = omega (arith, header_size-size_byte n, h.key_size, length-append (extension n) m.key);
      announced = payload_size-size_byte signed (128 + m.opcode) n m.key h.text_size ∙ sym n';
      filled = filled-length (unmask m.key 0 m.text) (omega (arith, n', h.text_filled));
    }

-- The packet of a client's frame delivers the text and leaves the parser as it started.
packet-received :
    (now : ℕ) (c : Connection) (m : Sent)
    → AreBytes m.key
    → AreBytes m.text
    → m.opcode < 3
    → length m.key ≡ 4
    → reset_message_buffer c.ws_parser ≡ new_parser
    → process_packet now c
        (header_size_of (size_byte (length m.text)))
        (length (unmask m.key 0 m.text))
        ((128 + m.opcode)
          ∷ size_byte (length m.text)
          ∷ ((extension (length m.text) ++ m.key) ++ unmask m.key 0 m.text))
      ≡ deliver c (received m ∷ [])
unfolding received
packet-received now c m hk ht op four fresh =
    process_packet-data now c m.opcode (size_byte (length m.text)) (extension (length m.text)) m.key
      (unmask m.key 0 m.text) op four (header_size-size_byte (length m.text))
    ∙ rw (fresh, unmask_twice m.key 0 m.text hk ht)

module _ (signed : Bool) (now : ℕ) where
  process_frames-sent :
      (f : ℕ) (c : Connection) (m : Sent) (rest : Text)
      → IsSent signed m
      → length (client_frame m ++ rest) < 2 ^ 64
      → c.ws_parser ≡ new_parser
      → process_frames signed now (suc (suc (suc f))) c (client_frame m ++ rest)
        ≡ process_frames signed now f (deliver c (received m ∷ [])) rest
  process_frames-sent f c m rest h small fresh =
      let n = length m.text in
      let frame = IsSent-IsFrame signed m h in
      let small' = subst (λ s. length s < 2 ^ 64) (client_frame-append m rest) small in
      let payload = unmask m.key 0 m.text in
      let more = extension n ++ m.key in
      ap (process_frames signed now (suc (suc (suc f))) c) (client_frame-append m rest)
      ∙ process_frames-frame signed now (128 + m.opcode) (size_byte n) more payload rest frame
          small' f c fresh
      ∙ ap (λ d. process_frames signed now f d rest)
          (packet-received now _ m h.key_bytes h.text_bytes h.data_opcode h.key_size (
            complete-reset signed now (128 + m.opcode) (size_byte n) more payload rest frame
              small'))

-- The data of messages that are sent one after the other.
unfoldable pub stream : List Sent → Text
stream [] = []
stream (m ∷ ms) = client_frame m ++ stream ms

unfoldable pub AreSent : Bool → List Sent → Type 0
AreSent signed [] = Unit {0}
AreSent signed (m ∷ ms) = IsSent signed m × AreSent signed ms

process_frames-nil :
    (signed : Bool) (now f : ℕ) (c : Connection) → process_frames signed now f c [] ≡ some c
unfolding process_frames
process_frames-nil signed now zero c = refl
process_frames-nil signed now (suc f) c = refl

-- The frames that clients send one after the other are all delivered, in order, with the text
-- unmasked, and the parser is as it started: if each has a whole data message of 1 to 125 bytes
-- (to 65535 where `char` is unsigned) and the FIN bit, and is masked with four bytes, all of
-- them have less than 2 ^ 64 bytes, and the connection's parser is fresh. Three rounds for each
-- message are enough.
pub process_frames-stream :
    (signed : Bool) (now f : ℕ) (c : Connection) (ms : List Sent)
    → AreSent signed ms
    → length (stream ms) < 2 ^ 64
    → c.ws_parser ≡ new_parser
    → 3 * length ms ≤ f
    → process_frames signed now f c (stream ms) ≡ some (deliver c (map received ms))
unfolding stream AreSent
process_frames-stream signed now f c [] h small fresh enough =
    process_frames-nil signed now f c
    ∙ ap₂ (λ p d. some (record c { ws_parser = p; delivered = d })) fresh
        (sym (append-nil c.delivered))
process_frames-stream signed now zero c (m ∷ ms) h small fresh enough = absurd (omega arith)
process_frames-stream signed now (suc zero) c (m ∷ ms) h small fresh enough = absurd (omega arith)
process_frames-stream signed now (suc (suc zero)) c (m ∷ ms) h small fresh enough =
    absurd (omega arith)
process_frames-stream signed now (suc (suc (suc f))) c (m ∷ ms) (hm, hms) small fresh enough =
    process_frames-sent signed now f c m (stream ms) hm small fresh
    ∙ process_frames-stream signed now f (deliver c (received m ∷ [])) ms hms
        (omega (arith, length-append (client_frame m) (stream ms))) refl (omega arith)
    ∙ ap (λ d. some (record c { ws_parser = new_parser; delivered = d }))
        (append_assoc c.delivered (received m ∷ []) (map received ms))
