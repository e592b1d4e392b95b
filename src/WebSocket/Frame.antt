-- ===== src/WebSocket/Frame.antt =====
-- Frames that websocket/WSProtocolParser.cpp builds, and the fields of a frame's header.
use dumais_lib.Prelude.{
  ℕ, ◌+◌, ◌/◌, ◌%◌, Option, none, some, [], ◌∷◌, Text, length, ltb, if◌then◌else◌,
}

-- The opcodes of websocket/WSProtocolParser.h.
abbrev pub ws_continue : ℕ
ws_continue = 0

abbrev pub ws_text : ℕ
ws_text = 1

abbrev pub ws_binary : ℕ
ws_binary = 2

abbrev pub ws_close : ℕ
ws_close = 8

abbrev pub ws_ping : ℕ
ws_ping = 9

abbrev pub ws_pong : ℕ
ws_pong = 10

-- `sizeof(WSHeader)`.
abbrev pub sizeof_header : ℕ
sizeof_header = 2

-- The bit fields of `WSHeader`, the lowest bits first: opcode 4, reserved 3, fin 1 in the first byte,
-- payloadSize 7, mask 1 in the second.
abbrev pub opcode_of : ℕ → ℕ
opcode_of first = first % 16

abbrev pub fin_of : ℕ → ℕ
fin_of first = first / 128

abbrev pub payload_size_of : ℕ → ℕ
payload_size_of second = second % 128

abbrev pub mask_of : ℕ → ℕ
mask_of second = second / 128

-- The first byte with `reserved` 0 and `fin` 1.
abbrev pub first_byte : ℕ → ℕ
first_byte opcode = 128 + opcode % 16

-- `sendData`: no frame is built (a null pointer is returned) if the size needs 64 bits.
unfoldable pub send_data : ℕ → Text → Option Text
send_data type buffer =
    if ltb 125 (length buffer)
    then (if ltb 65535 (length buffer)
        then none
        else some
            (first_byte type ∷ 126 ∷ (length buffer / 256 % 256) ∷ (length buffer % 256) ∷ buffer))
    else some (first_byte type ∷ length buffer ∷ buffer)

unfoldable pub generate_close_message : Text
generate_close_message = first_byte ws_close ∷ 0 ∷ []
