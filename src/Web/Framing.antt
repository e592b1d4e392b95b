-- ===== src/Web/Framing.antt =====
-- `HTTPFramingStrategy` of webserver/HTTPFramingStrategy.cpp, and `TcpClient::onReceive` of
-- webserver/TcpClient.cpp, which calls it.
pub mod Messages
mod Tests
use dumais_lib.Prelude.{
  ℕ, zero, suc, ◌+◌, ◌-◌, ◌%◌, ◌^◌, Bool, true, false, Option, none, some, List, [], ◌∷◌, ◌++◌,
  Text, codes, get_or, length, take, drop, ltb, ◌==◌, if◌then◌else◌,
}
use dumais_lib.Web.Request.{Regex}
use dumais_lib.WebSocket.Handshake.{end_of_header}

-- What a call of `processData` returns: an error, as its number without the sign, or the bytes taken.
pub data Framed : Type 0 where
  refused took : ℕ → Framed

-- A C string: the text up to the first NUL.
unfoldable pub c_string : Text → Text
c_string [] = []
c_string (c ∷ s) = let rest = c_string s in if c == 0 then [] else c ∷ rest

-- A number that is returned as an `int`.
unfoldable pub as_int : ℕ → Framed
as_int n = let low = n % 2 ^ 32 in if ltb low (2 ^ 31) then took low else refused (2 ^ 32 - low)

-- The members of `TcpClient` that receiving uses, and what its observer has been told.
pub record Receiver : Type 0 where
  pub failed : Bool
  pub stored : Text
  pub messages : List Text
  pub errors : List ℕ

-- The end of a round of the loop.
unfoldable pub take_message : Receiver → Text × Bool → Receiver
take_message c (stored, false) = record c { stored = stored }
take_message c (stored, true) = record c { stored = []; messages = c.messages ++ stored ∷ [] }

unfoldable pub is_chunked : Regex → Text → Bool
is_chunked rx message = elim (rx.search true (codes "transfer-encoding: *chunked") message) [
  | none ↦ false
  | some groups ↦ true
]

-- `processData` once the end of the message is known: `end` is `eoh+4+contentLength`. The results are
-- the one returned, what is stored, and `complete`.
unfoldable pub complete_message : (end : ℕ) → (stored buffer : Text) → Framed × (Text × Bool)
unfolding as_int
complete_message end stored buffer =
    let all = stored ++ buffer in
    let delta = (end + 2 ^ 64 - length stored) % 2 ^ 64 % 2 ^ 32 in
    if ltb (length all) end then (as_int (length buffer), (all, false)) else (
      as_int delta,
      (if ltb delta (length buffer) then take (length stored + delta) all else all, true),
    )

-- `atoi` is that of the C library, with its result as an `unsigned int`.
module _ (rx : Regex) (atoi : Text → ℕ) where
  unfoldable pub content_length : Text → ℕ
  content_length message = elim (rx.search true (codes "Content-Length: *(.*)") message) [
    | none ↦ 0
    | some groups ↦ atoi (get_or groups 1 [])
  ]

-- `behind` is what stands behind the buffer in memory, up to the next NUL: the buffer has none of its
-- own at the end.
module _ (rx : Regex) (atoi : Text → ℕ) (behind : Text) where
  -- `processData`, for a message of which `stored` has come before.
  unfoldable pub process_data : (stored buffer : Text) → Framed × (Text × Bool)
  unfolding c_string content_length is_chunked complete_message end_of_header as_int
  process_data stored buffer =
      let all = stored ++ buffer in
      let message = c_string (all ++ behind) in
      elim (end_of_header message) [
        | none ↦
            if ltb 2048 (length all)
            then (refused 2, (all, false))
            else (as_int (length buffer), (all, false))
        | some n ↦
            if is_chunked rx message
            then (refused 3, (stored, false))
            else complete_message (n + content_length rx atoi message) stored buffer
      ]

  -- The loop of `onReceive`; `none` means that the fuel ran out.
  unfoldable pub receive_loop : (fuel : ℕ) → Receiver → Text → Option (Bool × Receiver)
  unfolding take_message
  receive_loop fuel c [] = some (true, c)
  receive_loop zero c (b ∷ s) = none
  receive_loop (suc f) c (b ∷ s) =
      let (result, info) = process_data c.stored (b ∷ s) in
      elim result [
        | refused code ↦
            some
              (false, record c { failed = true; stored = info.0; errors = c.errors ++ code ∷ [] })
        | took n ↦ receive_loop f (take_message c info) (drop n (b ∷ s))
      ]

  -- `onReceive`.
  unfoldable pub on_receive : (fuel : ℕ) → Receiver → Text → Option (Bool × Receiver)
  unfolding receive_loop
  on_receive fuel c s = if c.failed then some (false, c) else receive_loop fuel c s
