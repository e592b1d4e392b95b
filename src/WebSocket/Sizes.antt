-- ===== src/WebSocket/Sizes.antt =====
-- Which sizes `parseWSMessage` of websocket/WSProtocolParser.cpp reads, and how much it copies.
use dumais_lib.Prelude.{
  ℕ, ◌+◌, ◌-◌, ◌*◌, ◌%◌, ◌^◌, ◌≤◌, ◌<◌, ◌≡◌, arith, true, false, ◌∷◌, Text, length, ltb,
}
use dumais_lib.Prelude.Bits.{le-or}
use dumais_lib.WebSocket.Parser.{
  Parser, header_size_of, payload_size, or_bytes, extended_size, full_header, to_read,
}
use dumais_lib.WebSocket.Stream.{reading}

-- While no more is stored than the parser waits for, a call copies no more than it is given, and
-- no more than the parser waits for.
pub to_read-le :
    (p : Parser) (n : ℕ)
    → length p.stored ≤ p.expected_length
    → p.expected_length < 2 ^ 64
    → length p.stored + n < 2 ^ 64
    → (to_read p n ≤ n) × (length p.stored + to_read p n ≤ p.expected_length)
unfolding to_read
to_read-le p n h small fits = ground arith

-- Where `char` is signed, a 16-bit size whose low byte is 128 or more is read as one of at least
-- 2 ^ 64 - 256.
pub payload_size-signed :
    (first high low : ℕ) (key : Text)
    → high < 128
    → 128 ≤ low
    → low < 256
    → (2 ^ 64 - 256 + low ≤ payload_size true (first ∷ 254 ∷ high ∷ low ∷ key))
      × (payload_size true (first ∷ 254 ∷ high ∷ low ∷ key) < 2 ^ 64)
unfolding payload_size extended_size or_bytes
payload_size-signed first high low key h l b =
    let high' : ltb high 128 ≡ true = ground arith in
    let low' : ltb low 128 ≡ false = ground arith in
    let e : (low + (2 ^ 64 - 256)) * 2 ^ 0 % 2 ^ 64 ≡ low + (2 ^ 64 - 256) = omega arith in
    let (le, lt) =
      le-or 64 (high * 2 ^ 8 % 2 ^ 64) (low + (2 ^ 64 - 256)) (omega arith) (omega arith) in
    rw (high', low', e) (omega (arith, le), lt)

-- Where `char` is signed, a header with a 16-bit size whose high byte is less than 128 and whose
-- low byte is 248 or more makes the next call copy at least 2 ^ 64 - 8 bytes, however few it is
-- given (less than 2 ^ 32).
pub to_read-signed :
    (first high low n : ℕ) (key : Text)
    → high < 128
    → 248 ≤ low
    → low < 256
    → length key ≡ 4
    → n < 2 ^ 32
    → 2 ^ 64 - 8 ≤ to_read (reading true first 254 (high ∷ low ∷ key)) n
unfolding to_read full_header header_size_of
to_read-signed first high low n key h l b four small =
    let (le, lt) = payload_size-signed first high low key h (omega arith) b in
    ground (arith, le, lt)
