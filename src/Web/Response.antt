-- ===== src/Web/Response.antt =====
-- The responses of webserver/HTTPResponse.cpp and webserver/HTTPBufferedResponse.cpp, and
-- `WebServer::sendResponse` of webserver/WebServer.cpp.
pub mod Codes
use dumais_lib.Prelude.{
  ℕ, zero, suc, ◌+◌, Bool, true, false, Option, none, some, List, [], ◌∷◌, ◌++◌, Text, codes,
  length, ◌==◌, if◌then◌else◌, take, drop,
}
use dumais_lib.Json.Decimal.{decimal}
use dumais_lib.Web.Response.Codes.{get_code}
use dumais_lib.Web.Client.{Client, send_data}

-- `HTTPBufferedResponse` with the members of `HTTPResponse`; the code is its index in the enumeration.
pub record Response : Type 0 where
  pub response_code : ℕ
  pub content_type : Text
  pub auth_header : Text
  pub header : Text
  pub cookie : Text
  pub authentication_hack : Bool
  pub header_built : Bool
  pub content : Text

abbrev pub crlf : Text
crlf = 13 ∷ 10 ∷ []

-- A line of the header that stands there if its text is not empty.
abbrev pub line_if : Text → (name rest : Text) → Text
line_if [] name rest = []
line_if (c ∷ s) name rest = name ++ ((c ∷ s) ++ (rest ++ crlf))

-- The text of the header.
unfoldable pub header_text : Response → (content_size : ℕ) → Text
unfolding decimal get_code
header_text r content_size =
    codes "HTTP/1.1 "
    ++ (get_code r.response_code
        ++ (crlf
            ++ (codes "Content-Length: "
                ++ (decimal content_size
                    ++ (crlf
                        ++ (line_if r.auth_header
                              (if r.authentication_hack
                                then codes "X-WWW-Authenticate: "
                                else codes "WWW-Authenticate: ")
                              []
                            ++ (line_if r.content_type (codes "Content-Type: ")
                                  (codes "; charset=UTF-8")
                                ++ (line_if r.cookie (codes "Set-Cookie: ") []
                                    ++ (codes "Connection: Close"
                                        ++ (crlf
                                            ++ (codes "Access-Control-Allow-Origin: *"
                                                ++ (crlf ++ crlf))))))))))))

-- `buildHeader`: false if the header has been built before.
unfoldable pub build_header : Response → (content_size : ℕ) → Bool × Response
unfolding header_text
build_header r content_size =
    if r.header_built
    then (false, r)
    else (true, record r { header = header_text r content_size; header_built = true })

-- The header is put before the content if it has just been built.
unfoldable pub prepend : Bool × Response → Response
prepend (true, r) = record r { content = r.header ++ r.content }
prepend (false, r) = r

unfoldable pub with_header : Response → Response
unfolding build_header prepend
with_header r = prepend (build_header r (length r.content))

-- `getResponseChunk`: the bytes that are copied.
unfoldable pub get_response_chunk : Response → (start_index max : ℕ) → Text × Response
unfolding with_header
get_response_chunk r start_index max =
    (take max (drop start_index (with_header r).content), with_header r)

-- `BUFSIZE`.
abbrev pub bufsize : ℕ
bufsize = 1024

-- The loop of `sendResponse`: the texts that it hands to `sendData` in turn, the last of them empty;
-- `none` means that the fuel ran out.
unfoldable pub response_chunks : (fuel : ℕ) → Response → (index : ℕ) → Option (List Text)
unfolding get_response_chunk
response_chunks zero r index = none
response_chunks (suc f) r index =
    let (chunk, r') = get_response_chunk r index bufsize in
    let rest = response_chunks f r' (index + length chunk) in
    if length chunk == 0
    then some (chunk ∷ [])
    else elim rest [ none ↦ none | some cs ↦ some (chunk ∷ cs) ]

unfoldable pub send_all : Client → List Text → Client
unfolding send_data
send_all c [] = c
send_all c (s ∷ ss) = send_all (send_data c s) ss

-- `sendResponse`.
unfoldable pub send_response : (fuel : ℕ) → Response → Client → Option Client
unfolding response_chunks send_all
send_response fuel r c = elim (response_chunks fuel r 0) [
  | none ↦ none
  | some cs ↦ some (send_all c cs)
]
