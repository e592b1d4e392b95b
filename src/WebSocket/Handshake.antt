-- ===== src/WebSocket/Handshake.antt =====
-- `HTTPProtocolParser` of websocket/HTTPProtocolParser.cpp.
pub mod Requests
pub mod Headers
pub mod Opening
pub mod Accept
pub mod Reading
pub mod Switching
mod Tests
use dumais_lib.Prelude.{
  ℕ, zero, suc, ◌+◌, Bool, true, false, not, ◌&&◌, ◌||◌, Option, none, some, List, [], ◌∷◌, ◌++◌,
  Text, codes, map, length, take, drop, ltb, leb, ◌==◌, if◌then◌else◌,
}
use dumais_lib.Json.Number.{text_eq, to_lower}
use dumais_lib.Json.Decimal.{decimal}
use dumais_lib.Rest.Parameters.{Values, lookup, store}
use dumais_lib.Rest.Engine.{split_at}
use dumais_lib.Utils.Hash.Sha1.{sha1}
use dumais_lib.Utils.Base64.{encode}
use dumais_lib.WebSocket.Connection.{Connection, connected, enqueue, process_data}

-- `MAX_HTTP_DATA`.
abbrev pub max_http_data : ℕ
max_http_data = 1024

pub data RequestStatus : Type 0 where
  incomplete ready error : RequestStatus

-- `HTTPRequest`.
pub record HttpRequest : Type 0 where
  pub status : RequestStatus
  pub type : Text
  pub resource : Text
  pub headers : Values
  pub protocols : Values

-- The first `dataIndex` bytes of `data`.
pub record HttpParser : Type 0 where
  pub stored : Text

abbrev pub is_end_of_header : Text → Bool
is_end_of_header (a ∷ b ∷ c ∷ d ∷ s) = a == 13 && (b == 10 && (c == 13 && d == 10))
is_end_of_header s = false

-- `endOfHeader` behind the `+=4`.
unfoldable pub end_of_header : Text → Option ℕ
end_of_header [] = none
end_of_header (c ∷ s) =
    let rest = end_of_header s in
    if is_end_of_header (c ∷ s) then some 4 else elim rest [ none ↦ none | some n ↦ some (suc n) ]

-- The variables of the loop over the headers.
pub record HeaderScan : Type 0 where
  pub is_header : Bool
  pub header : Text
  pub value : Text
  pub headers : Values

abbrev pub is_empty : Text → Bool
is_empty [] = true
is_empty (c ∷ s) = false

-- The end of a line.
unfoldable pub end_line : HeaderScan → HeaderScan
unfolding store to_lower
end_line st =
    if not (is_empty st.header) && not (is_empty st.value)
    then record {
      is_header = true;
      header = [];
      value = [];
      headers = store (map to_lower st.header) st.value st.headers;
    }
    else record st { is_header = true }

-- The body of the loop.
unfoldable pub scan_header : ℕ → HeaderScan → HeaderScan
unfolding end_line
scan_header c st =
    if c == 10
    then end_line st
    else if c == 13
    then st
    else if st.is_header
    then if c == b':'
      then record st { is_header = false }
      else record st { header = st.header ++ c ∷ [] }
    else if is_empty st.value && c == b' '
    then st
    else record st { value = st.value ++ c ∷ [] }

unfoldable pub scan_headers : Text → HeaderScan → HeaderScan
unfolding scan_header
scan_headers [] st = st
scan_headers (c ∷ s) st = scan_headers s (scan_header c st)

-- `std::isspace`.
abbrev pub is_space : ℕ → Bool
is_space c = c == b' ' || (leb 9 c && leb c 13)

unfoldable pub without_spaces : Text → Text
without_spaces [] = []
without_spaces (c ∷ s) = let rest = without_spaces s in if is_space c then rest else c ∷ rest

-- The loop of `tokenize`; `token` is the text from `lastToken` on. A byte 0 ends the subject.
unfoldable pub tokenize_from : ℕ → (token subject : Text) → Values → Values
unfolding without_spaces store
tokenize_from c token [] list = store (without_spaces token) (without_spaces token) list
tokenize_from c token (d ∷ s) list =
    let next = store (without_spaces token) (without_spaces token) list in
    let same = tokenize_from c (token ++ d ∷ []) s list in
    let other = tokenize_from c [] s next in if d == 0 then next else if d == c then other else same

unfoldable pub tokenize : ℕ → Text → Values
unfolding tokenize_from
tokenize c subject = tokenize_from c [] subject []

abbrev pub no_request : RequestStatus → HttpRequest
no_request status = record {
  status = status;
  type = [];
  resource = [];
  headers = [];
  protocols = [];
}

-- `req.protocols` for a request with these headers.
unfoldable pub protocols_of : Values → Values
unfolding lookup tokenize
protocols_of headers = elim (lookup (codes "sec-websocket-protocol") headers) [
  | none ↦ []
  | some names ↦ tokenize b',' names
]

-- The part of `parseIncoming` behind the search for the end of the header, of the text and that end.
unfoldable pub parse_request : Text → ℕ → HttpRequest
unfolding split_at scan_headers protocols_of
parse_request str header_end = elim (split_at b' ' str) [
  | none ↦ no_request error
  | some (type, behind) ↦ elim (split_at b' ' behind) [
    | none ↦ record (no_request error) { type = type }
    | some (resource, more) ↦ elim (split_at 10 (take header_end str)) [
      | none ↦ record (no_request error) { type = type; resource = resource }
      | some (first_line, lines) ↦
          let st =
            scan_headers lines
              (record { is_header = true; header = []; value = []; headers = [] }) in
          record {
            status = ready;
            type = type;
            resource = resource;
            headers = st.headers;
            protocols = protocols_of st.headers;
          }
    ]
  ]
]

abbrev pub is_ready : RequestStatus → Bool
is_ready ready = true
is_ready _ = false

-- `parseIncoming`: the data is forgotten once a whole request has been read.
unfoldable pub parse_incoming : HttpParser → Text → HttpRequest × HttpParser
unfolding end_of_header parse_request
parse_incoming parser buffer =
    let all = parser.stored ++ buffer in
    if leb max_http_data (length all)
    then (no_request error, parser)
    else elim (end_of_header all) [
      | none ↦ (no_request incomplete, record { stored = all })
      | some n ↦
          let req = parse_request all n in
          (req, record { stored = if is_ready req.status then [] else all })
    ]

-- `reject`.
unfoldable pub reject : (code : ℕ) → (response : Text) → Text
unfolding decimal
reject code response =
    codes "HTTP/1.1 "
    ++ (decimal code
        ++ (codes " "
            ++ (response
                ++ codes
                    "\r\nContent-type: text/html\r\nAccess-Control-Allow-Origin: *\r\nContent-length: 0\r\n\r\n")))

-- `MAGIC`.
abbrev pub magic : Text
magic = codes "258EAFA5-E914-47DA-95CA-C5AB0DC85B11"

-- `behind` are the bytes that stand behind the digest in memory.
unfoldable pub accept_key : (behind : ℕ × ℕ × ℕ) → (key : Text) → Text
unfolding sha1 encode
accept_key behind key = encode behind (sha1 (key ++ magic))

-- `switchProtocol`.
unfoldable pub switch_protocol : (behind : ℕ × ℕ × ℕ) → (key protocol : Text) → Text
unfolding accept_key
switch_protocol behind key protocol =
    codes
      "HTTP/1.1 101 Switching Protocols\r\nUpgrade: websocket\r\nConnection: Upgrade\r\nAccess-Control-Allow-Origin: *\r\nSec-WebSocket-Accept: "
    ++ (accept_key behind key
        ++ (codes "\r\nSec-WebSocket-Protocol: " ++ (protocol ++ codes "\r\n\r\n")))
