-- ===== src/WebSocket/Stream.antt =====
-- The loop of `processData` on whole frames of a client.
use dumais_lib.Prelude.{
  ℕ, suc, ◌+◌, ◌^◌, ◌<◌, ◌≡◌, ◌≢◌, refl, ap, ◌∙◌, arith, Bool, Option, [], ◌∷◌, ◌++◌, Text, length,
  drop-append, length-append, append-nil,
}
use dumais_lib.WebSocket.Frame.{mask_of}
use dumais_lib.WebSocket.Parser.{
  Parser, new_parser, message_ready, message_incomplete, header_size_of, payload_size, full_header,
  full_data, parse_ws_message, default_data_size, reset_message_buffer,
}
use dumais_lib.WebSocket.Parser.Calls.{
  parse_exact, header_size-ge, full_data-start, full_data-header, full_data-payload,
}
use dumais_lib.WebSocket.Connection.{Connection, process_frames, after_call, process_packet}

pub process_frames_step :
    (signed : Bool) (now f : ℕ) (c : Connection) (b : ℕ) (buf : Text)
    → process_frames signed now (suc f) c (b ∷ buf)
      ≡ after_call now
          (process_frames signed now f)
          c
          (b ∷ buf)
          (parse_ws_message signed c.ws_parser (b ∷ buf))
unfolding process_frames
process_frames_step signed now f c b buf = refl

pub after_call-incomplete :
    (now : ℕ) (again : Connection → Text → Option Connection) (c : Connection) (x r : Text)
    (p : Parser)
    → after_call now again c (x ++ r) (message_incomplete, length x, p)
      ≡ again (record c { ws_parser = p }) r
unfolding after_call
after_call-incomplete now again c x r p = ap (again _) (drop-append x r)

pub after_call-ready :
    (now : ℕ) (again : Connection → Text → Option Connection) (c : Connection) (x r : Text)
    (p : Parser) (hs n : ℕ) (buf : Text)
    → after_call now again c (x ++ r) (message_ready hs n buf, length x, p)
      ≡ again (process_packet now (record c { ws_parser = p }) hs n buf) r
unfolding after_call
after_call-ready now again c x r p hs n buf = ap (again _) (drop-append x r)

pub step-incomplete :
    (signed : Bool) (now f : ℕ) (c : Connection) (x r : Text) (p : Parser)
    → x ≢ []
    → parse_ws_message signed c.ws_parser (x ++ r) ≡ (message_incomplete, length x, p)
    → process_frames signed now (suc f) c (x ++ r)
      ≡ process_frames signed now f (record c { ws_parser = p }) r
step-incomplete signed now f c [] r p ne h = absurd (ne refl)
step-incomplete signed now f c (b ∷ x) r p ne h =
    process_frames_step signed now f c b (x ++ r)
    ∙ ap (after_call now (process_frames signed now f) c (b ∷ (x ++ r))) h
    ∙ after_call-incomplete now (process_frames signed now f) c (b ∷ x) r p

pub step-ready :
    (signed : Bool) (now f : ℕ) (c : Connection) (x r : Text) (p : Parser) (hs n : ℕ) (buf : Text)
    → x ≢ []
    → parse_ws_message signed c.ws_parser (x ++ r) ≡ (message_ready hs n buf, length x, p)
    → process_frames signed now (suc f) c (x ++ r)
      ≡ process_frames signed now f (process_packet now (record c { ws_parser = p }) hs n buf) r
step-ready signed now f c [] r p hs n buf ne h = absurd (ne refl)
step-ready signed now f c (b ∷ x) r p hs n buf ne h =
    process_frames_step signed now f c b (x ++ r)
    ∙ ap (after_call now (process_frames signed now f) c (b ∷ (x ++ r))) h
    ∙ after_call-ready now (process_frames signed now f) c (b ∷ x) r p hs n buf

-- A masked frame whose header announces its payload, which is not empty.
pub record IsFrame (signed : Bool) (first second : ℕ) (more payload : Text) : Type 0 where
  pub masked : mask_of second ≡ 1
  pub whole : suc (suc (length more)) ≡ header_size_of second
  pub announced : payload_size signed (first ∷ second ∷ more) ≡ length payload
  pub filled : payload ≢ []

length-filled : (s : Text) → s ≢ [] → 0 < length s
length-filled [] h = absurd (h refl)
length-filled (c ∷ s) h = omega arith

pub filled-length : (s : Text) → 0 < length s → s ≢ []
filled-length [] h = absurd (omega arith)
filled-length (c ∷ s) h = λ e. cc

-- A parser that has the two fixed bytes of a frame's header.
abbrev pub waiting : (first second : ℕ) → Parser
waiting first second = record {
  stored = first ∷ second ∷ [];
  capacity = default_data_size;
  expected_length = header_size_of second;
}

-- A parser that has the header.
abbrev pub with_header : (first second : ℕ) (more : Text) → Parser
with_header first second more = record (waiting first second) { stored = first ∷ second ∷ more }

abbrev pub reading : Bool → (first second : ℕ) (more : Text) → Parser
reading signed first second more =
    full_header signed (with_header first second more) (header_size_of second)

-- A masked header, with `rest` behind it.
module _ (signed : Bool) (now first second : ℕ) (more rest : Text) (masked : mask_of second ≡ 1)
    (whole : suc (suc (length more)) ≡ header_size_of second)
    (small : length (first ∷ second ∷ (more ++ rest)) < 2 ^ 64) where
  call_start :
      parse_ws_message signed new_parser ((first ∷ second ∷ []) ++ (more ++ rest))
      ≡ (message_incomplete, 2, waiting first second)
  call_start =
      parse_exact signed new_parser (first ∷ second ∷ []) (more ++ rest) refl (omega arith)
      ∙ rw (full_data-start signed first second default_data_size masked)

  call_header :
      parse_ws_message signed (waiting first second) (more ++ rest)
      ≡ (message_incomplete, length more, reading signed first second more)
  call_header =
      parse_exact signed (waiting first second) more rest (omega (arith, whole)) (omega arith)
      ∙ rw (full_data-header signed first second default_data_size more masked whole)

  -- Two rounds of the loop take the header.
  pub process_frames-header :
      (f : ℕ) (c : Connection)
      → c.ws_parser ≡ new_parser
      → process_frames signed now (suc (suc f)) c ((first ∷ second ∷ []) ++ (more ++ rest))
        ≡ process_frames signed now f
            (record c { ws_parser = reading signed first second more })
            rest
  process_frames-header f c fresh =
      step-incomplete signed now (suc f) c (first ∷ second ∷ []) (more ++ rest)
        (waiting first second) (λ e. cc)
        (ap (λ p. parse_ws_message signed p ((first ∷ second ∷ []) ++ (more ++ rest))) fresh
          ∙ call_start)
      ∙ step-incomplete signed now f (record c { ws_parser = waiting first second }) more rest
          (reading signed first second more)
          (filled-length more (omega (arith, whole, header_size-ge second))) call_header

-- A whole frame.
module _ (signed : Bool) (now first second : ℕ) (more payload rest : Text)
    (h : IsFrame signed first second more payload)
    (small : length (first ∷ second ∷ (more ++ (payload ++ rest))) < 2 ^ 64) where
  abbrev pub complete : Parser
  complete = record (reading signed first second more) {
    stored = first ∷ second ∷ (more ++ payload);
  }

  expected-length : complete.expected_length ≡ header_size_of second + length payload
  expected-length =
      unfold full_header in
      rw h.announced (
        omega (
          arith,
          header_size-ge second,
          length-append more (payload ++ rest),
          length-append payload rest,
        ))

  full_data-complete : full_data signed complete ≡ (
    message_ready (header_size_of second) (length payload) (first ∷ second ∷ (more ++ payload)),
    complete,
  )
  full_data-complete =
      full_data-payload signed first second complete.capacity (more ++ payload)
        complete.expected_length (length payload) h.masked (length-filled payload h.filled)
        (omega (arith, length-append more payload, h.whole)) expected-length
        (omega (arith, h.whole, length-append more (payload ++ rest), length-append payload rest))

  call_payload : parse_ws_message signed (reading signed first second more) (payload ++ rest) ≡ (
    message_ready (header_size_of second) (length payload) (first ∷ second ∷ (more ++ payload)),
    length payload,
    complete,
  )
  unfolding full_header
  call_payload =
      parse_exact signed (reading signed first second more) payload rest
        (omega (arith, expected-length, h.whole))
        (omega (arith, length-append more (payload ++ rest)))
      ∙ rw full_data-complete

  -- Once the message is complete, a call takes nothing and reports it again.
  pub call_again :
      length (first ∷ second ∷ (more ++ payload)) + length rest < 2 ^ 64
      → parse_ws_message signed complete rest ≡ (
        message_ready (header_size_of second) (length payload) (first ∷ second ∷ (more ++ payload)),
        0,
        complete,
      )
  unfolding full_header
  call_again fits =
      parse_exact signed complete [] rest
        (omega (arith, expected-length, h.whole, length-append more payload)) fits
      ∙ rw (append-nil (more ++ payload)) (rw full_data-complete)

  -- Three rounds of the loop take the frame.
  pub process_frames-frame :
      (f : ℕ) (c : Connection)
      → c.ws_parser ≡ new_parser
      → process_frames signed now
          (suc (suc (suc f)))
          c
          ((first ∷ second ∷ []) ++ (more ++ (payload ++ rest)))
        ≡ process_frames signed now f
            (process_packet now
              (record c { ws_parser = complete })
              (header_size_of second)
              (length payload)
              (first ∷ second ∷ (more ++ payload)))
            rest
  process_frames-frame f c fresh =
      process_frames-header signed now first second more (payload ++ rest) h.masked h.whole small
        (suc f) c fresh
      ∙ step-ready signed now f (record c { ws_parser = reading signed first second more }) payload
          rest complete (header_size_of second) (length payload)
          (first ∷ second ∷ (more ++ payload)) h.filled call_payload

  pub complete-reset : reset_message_buffer complete ≡ new_parser
  unfolding reset_message_buffer full_header
  complete-reset = ap (λ n. record new_parser { capacity = n }) (ground arith)
