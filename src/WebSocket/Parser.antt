-- ===== src/WebSocket/Parser.antt =====
-- `WSProtocolParser::parseWSMessage` of websocket/WSProtocolParser.cpp.
pub mod Calls
use dumais_lib.Prelude.{
  ℕ, ◌+◌, ◌-◌, ◌*◌, ◌/◌, ◌%◌, ◌^◌, Bool, true, false, Option, none, some, [], ◌∷◌, ◌++◌, Text,
  length, ltb, ◌==◌, if◌then◌else◌, get_or, take, List,
}
use Prim.Native.Nat.{bit_or}
use dumais_lib.WebSocket.Frame.{sizeof_header, payload_size_of, mask_of}

-- `DEFAULT_DATA_SIZE`.
abbrev pub default_data_size : ℕ
default_data_size = 1024

-- The object: `stored` is `data[0..dataIndex)`, `capacity` is `currentBufferSize`.
pub record Parser : Type 0 where
  pub stored : Text
  pub capacity : ℕ
  pub expected_length : ℕ

abbrev pub new_parser : Parser
new_parser = record { stored = []; capacity = default_data_size; expected_length = sizeof_header }

unfoldable pub reset_message_buffer : Parser → Parser
reset_message_buffer p = record {
  stored = [];
  capacity = if ltb default_data_size p.capacity then default_data_size else p.capacity;
  expected_length = sizeof_header;
}

-- `size_t` sums and differences.
abbrev pub add_size : ℕ → ℕ → ℕ
add_size a b = (a + b) % 2 ^ 64

abbrev pub sub_size : ℕ → ℕ → ℕ
sub_size a b = (a + (2 ^ 64 - b)) % 2 ^ 64

-- `(size_t)c` of a `char`: the compiler chooses whether `char` is signed.
abbrev pub widen : (signed : Bool) → ℕ → ℕ
widen true c = if ltb c 128 then c else c + (2 ^ 64 - 256)
widen false c = c

abbrev pub shift_left : ℕ → ℕ → ℕ
shift_left a k = a * 2 ^ k % 2 ^ 64

-- The status of a result, with the sizes that it has if a message is ready.
pub data Status : Type 0 where
  error : Status
  message_ready : (header_size payload_size : ℕ) (buffer : Text) → Status
  message_incomplete : Status

unfoldable pub header_size_of : ℕ → ℕ
header_size_of second =
    6
    + (if payload_size_of second == 126 then 2 else if payload_size_of second == 127 then 8 else 0)

-- The bytes of a big-endian number, the first shifted the most, joined by `|` from the left.
unfoldable pub or_bytes : Bool → (value : ℕ) → List ℕ → (shift : ℕ) → ℕ
or_bytes signed value [] shift = value
or_bytes signed value (c ∷ cs) shift =
    or_bytes signed (bit_or value (shift_left (widen signed c) shift)) cs (shift - 8)

unfoldable pub extended_size : Bool → ℕ → List ℕ → (shift : ℕ) → ℕ
unfolding or_bytes
extended_size signed c cs shift = or_bytes signed (shift_left (widen signed c) shift) cs (shift - 8)

unfoldable pub payload_size : Bool → Text → ℕ
unfolding extended_size
payload_size signed stored =
    let byte = λ (i : ℕ). get_or stored i 0 in
    let short = payload_size_of (byte 1) in
    if short == 126
    then extended_size signed (byte 2) (byte 3 ∷ []) 8
    else if short == 127
    then extended_size signed (byte 2)
        (byte 3 ∷ byte 4 ∷ byte 5 ∷ byte 6 ∷ byte 7 ∷ byte 8 ∷ byte 9 ∷ []) 56
    else short

-- The full header is there: the length of the message is known, and the buffer grows if need be.
unfoldable pub full_header : Bool → Parser → ℕ → Parser
unfolding payload_size
full_header signed p header_size =
    let expected = add_size header_size (payload_size signed p.stored) in
    record p {
      capacity = if ltb p.capacity expected then expected else p.capacity;
      expected_length = expected;
    }

-- What happens once `dataIndex == expectedLength`.
unfoldable pub full_data : Bool → Parser → Status × Parser
unfolding full_header header_size_of
full_data signed p =
    let second = get_or p.stored 1 0 in
    let header_size = header_size_of second in
    let p' =
      (if p.expected_length == sizeof_header
        then record p { expected_length = header_size }
        else p) in
    if mask_of second == 0
    then (error, p)
    else if length p.stored == header_size
    then (message_incomplete, full_header signed p' header_size)
    else if ltb header_size p'.expected_length
    then (message_ready header_size (sub_size p'.expected_length header_size) p.stored, p')
    else (message_incomplete, p')

-- How many bytes of the input a call takes.
unfoldable pub to_read : Parser → ℕ → ℕ
to_read p size =
    if ltb p.expected_length (add_size (length p.stored) size)
    then sub_size p.expected_length (length p.stored)
    else size

-- The call; the numbers are `dataRead`.
unfoldable pub parse_ws_message : Bool → Parser → Text → Status × ℕ × Parser
unfolding to_read full_data
parse_ws_message signed p buf =
    let n = to_read p (length buf) in
    let p' = record p { stored = p.stored ++ take n buf } in
    let (status, q) = full_data signed p' in
    if length p'.stored == p'.expected_length then (status, n, q) else (message_incomplete, n, p')
