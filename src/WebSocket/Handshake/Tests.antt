-- ===== src/WebSocket/Handshake/Tests.antt =====
-- Runs of the handshake of websocket/HTTPProtocolParser.cpp, with the key of RFC 6455, and of the
-- server of websocket/WebSocketServer.cpp.
use dumais_lib.Prelude.{
  ℕ, ◌≡◌, refl, arith, Bool, Bool-cases, inl, inr, ◌&&◌, true, false, none, some, List, length, map,
  ◌<◌, [], ◌∷◌, ◌++◌, Text, codes,
}
use dumais_lib.Json.Number.{to_lower, text_eq}
use dumais_lib.Rest.Parameters.{Values, lookup}
use dumais_lib.Utils.RingBuffer.{empty_ring}
use dumais_lib.WebSocket.Parser.{new_parser}
use dumais_lib.WebSocket.Connection.{Connection, connected}
use dumais_lib.Prelude.Maps.{insert}
use dumais_lib.WebSocket.Server.{Server, process_accept, connection, none_left}
use dumais_lib.WebSocket.Server.Accepting.{AreNew, process_accept-count}
use dumais_lib.WebSocket.Handshake.{
  max_http_data, incomplete, HttpParser, is_empty, end_of_header, no_request, tokenize,
  parse_incoming, accept_key,
}
use dumais_lib.WebSocket.Upgrade.{Socket, Handler}
use dumais_lib.WebSocket.Handshake.Requests.{parse_incoming-lt, parse_incoming-append}
use dumais_lib.WebSocket.Handshake.Headers.{
  is_name_char, is_value_char, is_word_char, All, StartsPlain, IsField, AreFields, render_request,
}
use dumais_lib.WebSocket.Handshake.Reading.{
  lowered, AreTokens, offered_text, IsRead, parse_incoming-IsRead,
}
use dumais_lib.Rest.Stored.{last_value}

abbrev key : Text
key = codes "dGhlIHNhbXBsZSBub25jZQ=="

accept_key_test : accept_key (0, 0, 0) key ≡ codes "s3pPLMBiTxaQ9kYGzzhZRbK+xOo="
unfolding accept_key
accept_key_test = refl

abbrev parser : HttpParser
parser = record { stored = [] }

parse_incoming-lt_example : length (parse_incoming parser (codes "GET /")).1.stored < max_http_data
parse_incoming-lt_example = parse_incoming-lt parser (codes "GET /") (omega arith)

parse_incoming-append_example :
    ((parse_incoming parser (codes "GET /")).0 ≡ no_request incomplete)
    × (parse_incoming (parse_incoming parser (codes "GET /")).1 (codes " HTTP/1.1\r\n\r\n")
        ≡ parse_incoming parser (codes "GET / HTTP/1.1\r\n\r\n"))
unfolding end_of_header
parse_incoming-append_example =
    parse_incoming-append parser (codes "GET /") (codes " HTTP/1.1\r\n\r\n") (omega arith) refl

abbrev fields : Values
fields =
    (codes "Host", codes "a")
    ∷ (codes "Sec-WebSocket-Key", codes "k=")
    ∷ (codes "Sec-WebSocket-Protocol", codes "chat, mqtt")
    ∷ []

abbrev names : List Text
names = codes "chat" ∷ codes "mqtt" ∷ []

-- A field of characters that are checked one after the other.
host_IsField : IsField (codes "Host", codes "a")
unfolding All
host_IsField = (((refl, (refl, (refl, (refl, tt)))), refl), ((refl, tt), λ e. omega arith))

abbrev all_chars : (ℕ → Bool) → Text → Bool
all_chars p [] = true
all_chars p (c ∷ s) = p c && all_chars p s

All-all_chars : (p : ℕ → Bool) (s : Text) → all_chars p s ≡ true → All p s
unfolding All
All-all_chars p [] h = tt
All-all_chars p (c ∷ s) h = elim (Bool-cases (p c)) [
  | inl e ↦ (e, All-all_chars p s (rw e at h))
  | inr e ↦ absurd (let f : false ≡ true = rw e at h in cc)
]

plain_IsField :
    (name value : Text)
    → all_chars is_name_char name ≡ true
    → is_empty name ≡ false
    → all_chars is_value_char value ≡ true
    → StartsPlain value
    → IsField (name, value)
plain_IsField name value hn some_name hv starts = (
  (All-all_chars is_name_char name hn, some_name),
  (All-all_chars is_value_char value hv, starts),
)

fields-AreFields : AreFields fields
unfolding AreFields
fields-AreFields = (
  host_IsField,
  (
    plain_IsField (codes "Sec-WebSocket-Key") (codes "k=") refl refl refl (λ e. omega arith),
    (
      plain_IsField (codes "Sec-WebSocket-Protocol") (codes "chat, mqtt") refl refl refl
          (λ e. omega arith),
      tt,
    ),
  ),
)

names-AreTokens : AreTokens names
unfolding AreTokens All
names-AreTokens = ((refl, (refl, (refl, (refl, tt)))), ((refl, (refl, (refl, (refl, tt)))), tt))

slash_All : All is_word_char (codes "/a")
unfolding All
slash_All = (refl, (refl, tt))

get_All : All is_word_char (codes "GET")
unfolding All
get_All = (refl, (refl, (refl, tt)))

parse_incoming-IsRead_example :
    IsRead
      (codes "GET")
      (codes "/a")
      fields
      names
      (parse_incoming parser (render_request (codes "GET") (codes "/a") fields)).0
    × ((parse_incoming parser (render_request (codes "GET") (codes "/a") fields)).1 ≡ parser)
unfolding render_request last_value lowered to_lower text_eq offered_text
parse_incoming-IsRead_example =
    parse_incoming-IsRead (codes "GET") (codes "/a") fields names get_All slash_All fields-AreFields
      (omega arith) names-AreTokens refl

abbrev fresh_connection : Connection
fresh_connection = record {
  state = connected;
  ws_parser = new_parser;
  tx_list = empty_ring (record { buffer = []; current_index = 0 }) 3;
  current = none;
  closing_time = 0;
  delivered = [];
}

abbrev socket : Socket
socket = record { http = true; http_parser = parser; connection = fresh_connection; opened = 0 }

-- A handler that takes a request for chat.
abbrev takes_chat : Handler
takes_chat resource protocols = elim (lookup (codes "chat") protocols) [
  | none ↦ (false, [])
  | some v ↦ (true, v)
]

tokenize_test :
    tokenize b',' (codes "chat, mqtt")
    ≡ (codes "chat", codes "chat") ∷ (codes "mqtt", codes "mqtt") ∷ []
unfolding tokenize
tokenize_test = refl

abbrev server : Server
server = record { web_sockets = []; max_connections = 1; is_listening = true }

descriptors_AreNew : AreNew (5 ∷ 6 ∷ []) []
unfolding AreNew insert
descriptors_AreNew = (refl, λ s. (refl, λ r. tt))

-- Two connections where one is the limit.
process_accept-count_example :
    length
      (process_accept connected
        (map connection (5 ∷ 6 ∷ []) ++ none_left ∷ [])
        server).1.web_sockets
    ≡ 2
process_accept-count_example = process_accept-count connected (5 ∷ 6 ∷ []) server descriptors_AreNew
