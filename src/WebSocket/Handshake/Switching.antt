-- ===== src/WebSocket/Handshake/Switching.antt =====
-- How websocket/WebSocket.cpp answers a request that opens a connection.
use dumais_lib.Prelude.{ℕ, ◌+◌, ◌≡◌, false, List, [], ◌∷◌, ◌++◌, Text, codes}
use dumais_lib.Utils.Hash.Sha1.{sha1}
use dumais_lib.Utils.Base64.{encode}
use dumais_lib.Utils.RingBuffer.Refine.{Holds}
use dumais_lib.WebSocket.Connection.{SendBuffer, Connection, connected}
use dumais_lib.WebSocket.Upgrade.{Socket}

-- The answer of RFC 6455 to a key, with the protocol that is chosen.
unfoldable pub switching_text : (behind : ℕ × ℕ × ℕ) → (key chosen : Text) → Text
switching_text behind key chosen =
    codes "HTTP/1.1 101 Switching Protocols\r\n"
    ++ (codes "Upgrade: websocket\r\n"
        ++ (codes "Connection: Upgrade\r\n"
            ++ (codes "Access-Control-Allow-Origin: *\r\n"
                ++ (codes "Sec-WebSocket-Accept: "
                    ++ (encode behind (sha1 (key ++ codes "258EAFA5-E914-47DA-95CA-C5AB0DC85B11"))
                        ++ (codes "\r\n"
                            ++ (codes "Sec-WebSocket-Protocol: "
                                ++ (chosen ++ codes "\r\n\r\n"))))))))

-- What has become of a connection `s` whose queue was `q`.
pub record IsSwitched (behind : ℕ × ℕ × ℕ) (key chosen : Text) (s : Socket) (q : List SendBuffer)
    (t : Socket) : Type 0 where
  pub is_web_socket : t.http ≡ false
  pub forgets : t.http_parser ≡ record { stored = [] }
  pub opens : t.connection.state ≡ connected
  pub reports_once : t.opened ≡ s.opened + 1
  pub queue :
      Holds t.connection.tx_list
        (q ++ (record { buffer = switching_text behind key chosen; current_index = 0 }) ∷ [])
