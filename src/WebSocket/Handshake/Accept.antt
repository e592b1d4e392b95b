-- ===== src/WebSocket/Handshake/Accept.antt =====
-- How websocket/WebSocket.cpp opens a connection.
use dumais_lib.Prelude.{
  ℕ, ◌+◌, ◌<◌, ◌≡◌, refl, ap, ◌∙◌, arith, true, false, some, List, [], ◌∷◌, ◌++◌, Text, codes,
  length,
}
use dumais_lib.Json.Number.{text_eq}
use dumais_lib.Rest.Parameters.{Values, lookup}
use dumais_lib.Utils.Hash.{bytes_of}
use dumais_lib.Utils.Hash.Sha1.{sha1}
use dumais_lib.Utils.Base64.{AreBytes}
use dumais_lib.Utils.Base64.Decode.{decode, decode-encode}
use dumais_lib.WebSocket.Connection.{connected, enqueue}
use dumais_lib.WebSocket.Handshake.{
  max_http_data, protocols_of, parse_incoming, magic, accept_key, switch_protocol,
}
use dumais_lib.WebSocket.Upgrade.{Socket, Handler, upgrade, answer_request, check_http_buffer}
use dumais_lib.WebSocket.Handshake.Headers.{
  is_word_char, All, AreFields, render_request, store_fields,
}
use dumais_lib.WebSocket.Handshake.Opening.{request_of, parse_incoming-render_request}

bytes_of-AreBytes : (xs : List ℕ) → AreBytes (bytes_of xs)
unfolding bytes_of AreBytes
bytes_of-AreBytes [] = tt
bytes_of-AreBytes (x ∷ xs) =
    (omega arith, (omega arith, (omega arith, (omega arith, bytes_of-AreBytes xs))))

sha1-AreBytes : (s : Text) → AreBytes (sha1 s)
unfolding sha1
sha1-AreBytes s = bytes_of-AreBytes _

-- The accept value of the handshake is Base64 for the SHA-1 of the client's key and the magic
-- text, whatever three bytes stand behind the digest in memory.
pub decode-accept_key :
    (x y z : ℕ) (key : Text)
    → x < 256
    → y < 256
    → z < 256
    → decode (accept_key (x, y, z) key) ≡ sha1 (key ++ magic)
unfolding accept_key
decode-accept_key x y z key hx hy hz =
    decode-encode x y z (sha1 (key ++ magic)) hx hy hz (sha1-AreBytes (key ++ magic))

module _ (behind : ℕ × ℕ × ℕ) (h : Handler) (s : Socket) (resource : Text) (fields : Values) where
  -- The handler takes a request that has a key.
  answered :
      (chosen key : Text)
      → h resource (protocols_of (store_fields fields [])) ≡ (true, chosen)
      → lookup (codes "sec-websocket-key") (store_fields fields []) ≡ some key
      → answer_request behind
          (some h)
          (request_of (codes "GET") resource fields)
          (record s { http_parser = record { stored = [] } })
        ≡ record s {
          http = false;
          http_parser = record { stored = [] };
          connection = record (enqueue s.connection (switch_protocol behind key chosen)) {
            state = connected;
          };
          opened = s.opened + 1;
        }
  unfolding answer_request upgrade text_eq
  answered chosen key takes has_key = rw (answer_request, takes, has_key) refl

  -- When a fresh connection receives the text of a GET request that has a key and that the
  -- handler takes, the switch of the protocol with that key is handed to its queue, its
  -- protocol is WebSocket, its state is connected, and it is reported once. Resource and headers are
  -- well-formed, and the text has less than 1024 bytes.
  pub check_http_buffer-upgrade :
      (chosen key : Text)
      → s.http_parser ≡ record { stored = [] }
      → All is_word_char resource
      → AreFields fields
      → length (render_request (codes "GET") resource fields) < max_http_data
      → h resource (protocols_of (store_fields fields [])) ≡ (true, chosen)
      → lookup (codes "sec-websocket-key") (store_fields fields []) ≡ some key
      → check_http_buffer behind (some h) s (render_request (codes "GET") resource fields)
        ≡ record s {
          http = false;
          http_parser = record { stored = [] };
          connection = record (enqueue s.connection (switch_protocol behind key chosen)) {
            state = connected;
          };
          opened = s.opened + 1;
        }
  unfolding check_http_buffer answer_request
  check_http_buffer-upgrade chosen key fresh hr hf small takes has_key =
      ap (λ r. answer_request behind (some h) r.0 (record s { http_parser = r.1 }))
        (ap (λ p. parse_incoming p (render_request (codes "GET") resource fields)) fresh
          ∙ parse_incoming-render_request (codes "GET") resource fields get_word hr hf small)
      ∙ answered chosen key takes has_key
    where
      get_word : All is_word_char (codes "GET")
      get_word = unfold All in (refl, (refl, (refl, tt)))
