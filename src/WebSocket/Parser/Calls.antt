-- ===== src/WebSocket/Parser/Calls.antt =====
-- Calls of `parseWSMessage` that take just what the parser waits for.
use dumais_lib.Prelude.{
  ℕ, ◌+◌, ◌^◌, ◌≤◌, ◌<◌, ◌≡◌, ◌∙◌, arith, Bool, true, [], ◌∷◌, ◌++◌, Text, length, ◌==◌,
  take-append, length-append,
}
use dumais_lib.WebSocket.Frame.{sizeof_header, mask_of}
use dumais_lib.WebSocket.Parser.{
  Parser, message_ready, message_incomplete, header_size_of, full_header, full_data, to_read,
  parse_ws_message,
}

-- The call takes `length x` bytes if that is what is missing.
to_read_exact :
    (p : Parser) (x rest : Text)
    → length p.stored + length x ≡ p.expected_length
    → length p.stored + length (x ++ rest) < 2 ^ 64
    → to_read p (length (x ++ rest)) ≡ length x
unfolding to_read
to_read_exact p x rest e small = ground (arith, length-append x rest)

-- A call on input that begins with all that is missing processes the stored data.
pub parse_exact :
    (signed : Bool) (p : Parser) (x rest : Text)
    → length p.stored + length x ≡ p.expected_length
    → length p.stored + length (x ++ rest) < 2 ^ 64
    → parse_ws_message signed p (x ++ rest) ≡ (
      (full_data signed (record p { stored = p.stored ++ x })).0,
      length x,
      (full_data signed (record p { stored = p.stored ++ x })).1,
    )
unfolding parse_ws_message
parse_exact signed p x rest e small =
    rw (to_read_exact p x rest e small, take-append x rest, same (length-append p.stored x ∙ e))
  where
    same : {a b : ℕ} → a ≡ b → (a == b) ≡ true
    same h = ground arith

pub header_size-ge : (second : ℕ) → (6 ≤ header_size_of second) × (header_size_of second ≤ 14)
unfolding header_size_of
header_size-ge second = ground arith

-- Behind the two fixed bytes the parser waits for the whole header.
pub full_data-start :
    (signed : Bool) (first second cap : ℕ)
    → mask_of second ≡ 1
    → full_data signed
        (record { stored = first ∷ second ∷ []; capacity = cap; expected_length = sizeof_header })
      ≡ (
        message_incomplete,
        record {
          stored = first ∷ second ∷ [];
          capacity = cap;
          expected_length = header_size_of second;
        },
      )
full_data-start signed first second cap h =
    unfold full_data in ground (arith, header_size-ge second)

-- Behind the header it waits for the payload.
pub full_data-header :
    (signed : Bool) (first second cap : ℕ) (more : Text)
    → mask_of second ≡ 1
    → length (first ∷ second ∷ more) ≡ header_size_of second
    → let p : Parser = record {
      stored = first ∷ second ∷ more;
      capacity = cap;
      expected_length = header_size_of second;
    } in
      full_data signed p ≡ (message_incomplete, full_header signed p (header_size_of second))
full_data-header signed first second cap more h len =
    unfold full_data in ground (arith, header_size-ge second)

-- Behind the payload the message is ready.
pub full_data-payload :
    (signed : Bool) (first second cap : ℕ) (more : Text) (expected n : ℕ)
    → mask_of second ≡ 1
    → 0 < n
    → length (first ∷ second ∷ more) ≡ header_size_of second + n
    → expected ≡ header_size_of second + n
    → header_size_of second + n < 2 ^ 64
    → let p : Parser = record {
      stored = first ∷ second ∷ more;
      capacity = cap;
      expected_length = expected;
    } in
      full_data signed p ≡ (message_ready (header_size_of second) n (first ∷ second ∷ more), p)
full_data-payload signed first second cap more expected n h pos len e small =
    unfold full_data in ground (arith, header_size-ge second)
