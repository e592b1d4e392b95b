-- ===== src/WebSocket/Stall.antt =====
-- Data on which the loop of `WebSocket::processData` makes no progress, and sizes that the parser of
-- websocket/WSProtocolParser.cpp reads wrong.
use dumais_lib.Prelude.{
  ℕ, zero, suc, ◌+◌, ◌^◌, ◌<◌, ◌≡◌, refl, ap, sym, ◌∙◌, arith, Bool, true, false, none, [], ◌∷◌,
  ◌++◌, Text, length, ltb, ◌==◌, ◌||◌, not, if◌then◌else◌, append-nil, length-append,
}
use dumais_lib.WebSocket.Frame.{mask_of, opcode_of, ws_close, ws_ping, generate_close_message}
use dumais_lib.WebSocket.Parser.{
  Parser, new_parser, message_ready, message_incomplete, header_size_of, payload_size,
  parse_ws_message, full_header, default_data_size, add_size,
}
use dumais_lib.WebSocket.Parser.Calls.{parse_exact, header_size-ge, full_data-header}
use dumais_lib.WebSocket.Stream.{
  IsFrame, after_call-incomplete, after_call-ready, process_frames_step, process_frames-header,
  process_frames-frame, call_again, complete, with_header, reading,
}
use dumais_lib.WebSocket.Connection.{
  Connection, process_frames, process_packet, after_call, is_data, close_web_socket, enqueue,
  abort_web_socket,
}

-- Calls that take nothing and do not change the parser: the loop never ends.
process_frames-incomplete :
    (signed : Bool) (now f : ℕ) (c : Connection) (p : Parser) (b : ℕ) (buf : Text)
    → parse_ws_message signed p (b ∷ buf) ≡ (message_incomplete, 0, p)
    → c.ws_parser ≡ p
    → process_frames signed now f c (b ∷ buf) ≡ none
process_frames-incomplete signed now zero c p b buf h e = unfold process_frames in refl
process_frames-incomplete signed now (suc f) c p b buf h e =
    process_frames_step signed now f c b buf
    ∙ ap
        (λ q.
          after_call now (process_frames signed now f) c (b ∷ buf)
            (parse_ws_message signed q (b ∷ buf)))
        e
    ∙ ap (after_call now (process_frames signed now f) c (b ∷ buf)) h
    ∙ after_call-incomplete now (process_frames signed now f) c [] (b ∷ buf) p
    ∙ process_frames-incomplete signed now f (record c { ws_parser = p }) p b buf h refl

-- The parser that waits for an empty payload.
module _ (signed : Bool) (first second : ℕ) (more : Text) (masked : mask_of second ≡ 1)
    (whole : suc (suc (length more)) ≡ header_size_of second)
    (empty : payload_size signed (first ∷ second ∷ more) ≡ 0) where
  reading-empty : reading signed first second more ≡ with_header first second more
  unfolding full_header
  reading-empty =
      let size : add_size (header_size_of second) 0 ≡ header_size_of second =
        omega (arith, header_size-ge second) in
      let fits : ltb default_data_size (header_size_of second) ≡ false =
        ground (arith, header_size-ge second) in
      rw (empty, size, fits)

  call-empty :
      (rest : Text)
      → header_size_of second + length rest < 2 ^ 64
      → parse_ws_message signed (with_header first second more) rest
        ≡ (message_incomplete, 0, with_header first second more)
  call-empty rest small =
      parse_exact signed (with_header first second more) [] rest (omega (arith, whole))
        (omega (arith, whole))
      ∙ rw (append-nil more) (
          rw (
            full_data-header signed first second default_data_size more masked whole,
            reading-empty,
          ))

-- A masked frame whose payload is empty is never reported: whatever the number of rounds, the
-- loop does not end if the data goes on behind the frame. The frame's header is complete, all
-- data has less than 2 ^ 64 bytes, and the connection's parser is fresh.
pub process_frames-empty :
    (signed : Bool) (now f : ℕ) (c : Connection) (first second : ℕ) (more : Text) (b : ℕ)
    (rest : Text)
    → mask_of second ≡ 1
    → suc (suc (length more)) ≡ header_size_of second
    → payload_size signed (first ∷ second ∷ more) ≡ 0
    → length (first ∷ second ∷ (more ++ b ∷ rest)) < 2 ^ 64
    → c.ws_parser ≡ new_parser
    → process_frames signed now (suc (suc f)) c (first ∷ second ∷ (more ++ b ∷ rest)) ≡ none
process_frames-empty signed now f c first second more b rest masked whole empty small fresh =
    process_frames-header signed now first second more (b ∷ rest) masked whole small f c fresh
    ∙ process_frames-incomplete signed now f _ (with_header first second more) b rest
        (call-empty signed first second more masked whole empty (b ∷ rest)
          (omega (arith, length-append more (b ∷ rest))))
        (reading-empty signed first second more masked whole empty)

-- An opcode that `processWholeWSPacket` does not know.
abbrev pub is_unknown : ℕ → Bool
is_unknown opcode = not (is_data opcode || opcode == ws_close || opcode == ws_ping)

process_packet-unknown :
    (now : ℕ) (c : Connection) (hs n first : ℕ) (buf : Text)
    → is_unknown (opcode_of first) ≡ true
    → process_packet now c hs n (first ∷ buf) ≡ close_web_socket now c
unfolding process_packet
process_packet-unknown now c hs n first buf h = ground arith

either_parser :
    (b : Bool) (c d : Connection)
    → c.ws_parser ≡ d.ws_parser
    → (if b then c else d).ws_parser ≡ c.ws_parser
either_parser true c d h = refl
either_parser false c d h = sym h

enqueue-ws_parser : (c : Connection) (s : Text) → (enqueue c s).ws_parser ≡ c.ws_parser
unfolding enqueue abort_web_socket
enqueue-ws_parser c s = either_parser _ _ _ refl

close_web_socket-ws_parser :
    (now : ℕ) (c : Connection) → (close_web_socket now c).ws_parser ≡ c.ws_parser
unfolding close_web_socket
close_web_socket-ws_parser now c = enqueue-ws_parser c generate_close_message

-- Calls that take nothing and report the same unknown message: the loop never ends.
process_frames-again :
    (signed : Bool) (now f : ℕ) (c : Connection) (p : Parser) (hs n first : ℕ) (message : Text)
    (b : ℕ) (buf : Text)
    → is_unknown (opcode_of first) ≡ true
    → parse_ws_message signed p (b ∷ buf) ≡ (message_ready hs n (first ∷ message), 0, p)
    → c.ws_parser ≡ p
    → process_frames signed now f c (b ∷ buf) ≡ none
process_frames-again signed now zero c p hs n first message b buf u h e =
    unfold process_frames in refl
process_frames-again signed now (suc f) c p hs n first message b buf u h e =
    process_frames_step signed now f c b buf
    ∙ ap
        (λ q.
          after_call now (process_frames signed now f) c (b ∷ buf)
            (parse_ws_message signed q (b ∷ buf)))
        e
    ∙ ap (after_call now (process_frames signed now f) c (b ∷ buf)) h
    ∙ after_call-ready now (process_frames signed now f) c [] (b ∷ buf) p hs n (first ∷ message)
    ∙ process_frames-again signed now f _ p hs n first message b buf u h parser'
  where
    parser' : (process_packet now (record c { ws_parser = p }) hs n (first ∷ message)).ws_parser ≡ p
    parser' =
        ap (λ d. d.ws_parser)
          (process_packet-unknown now (record c { ws_parser = p }) hs n first message u)
        ∙ close_web_socket-ws_parser now (record c { ws_parser = p })

-- After a whole masked frame with an opcode that is not known (a pong, for one) the parser is
-- not reset: whatever the number of rounds, the loop does not end if the data goes on behind the
-- frame. All data has less than 2 ^ 64 bytes, the payload is not empty, and the connection's
-- parser is fresh.
pub process_frames-unknown :
    (signed : Bool) (now f : ℕ) (c : Connection) (first second : ℕ) (more payload : Text) (b : ℕ)
    (rest : Text)
    → IsFrame signed first second more payload
    → is_unknown (opcode_of first) ≡ true
    → length (first ∷ second ∷ (more ++ (payload ++ b ∷ rest))) < 2 ^ 64
    → c.ws_parser ≡ new_parser
    → process_frames signed now
        (suc (suc (suc f)))
        c
        (first ∷ second ∷ (more ++ (payload ++ b ∷ rest)))
      ≡ none
process_frames-unknown signed now f c first second more payload b rest h u small fresh =
    let p = complete signed now first second more payload (b ∷ rest) h small in
    process_frames-frame signed now first second more payload (b ∷ rest) h small f c fresh
    ∙ process_frames-again signed now f _ p (header_size_of second) (length payload) first
        (second ∷ (more ++ payload)) b rest u
        (call_again signed now first second more payload (b ∷ rest) h small (
          omega (
            arith,
            length-append more (payload ++ b ∷ rest),
            length-append payload (b ∷ rest),
            length-append more payload,
          )))
        (ap (λ d. d.ws_parser)
            (process_packet-unknown now (record c { ws_parser = p }) (header_size_of second)
              (length payload) first (second ∷ (more ++ payload)) u)
          ∙ close_web_socket-ws_parser now (record c { ws_parser = p }))
