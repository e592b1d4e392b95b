-- ===== src/Web/Serving.antt =====
-- What webserver/WebServer.cpp does with a message, an error of the framing, and the answers that the
-- listener gives later.
use dumais_lib.Prelude.{
  ℕ, zero, suc, Bool, true, false, ◌||◌, Option, none, some, List, [], ◌∷◌, ◌++◌, Text, ◌==◌,
  if◌then◌else◌,
}
use dumais_lib.Json.Number.{text_eq}
use dumais_lib.Utils.RingBuffer.{Ring, put, get}
use dumais_lib.Web.Request.{Regex, Request, request}
use dumais_lib.Web.Auth.{
  Server, Verdict, accepted, rejected, judge, build_buffered_response, service_unavailable,
  not_implemented, request_entity_too_large,
}
use dumais_lib.Web.Response.{Response}

-- `setCookie`.
unfoldable pub set_cookie : Text → Response → Response
set_cookie cookie r = record r { cookie = cookie }

-- `if (cookie != "" && resp) resp->setCookie(cookie)`.
unfoldable pub with_cookie : Text → Option Response → Option Response
unfolding set_cookie text_eq
with_cookie cookie none = none
with_cookie cookie (some r) = some (if text_eq cookie [] then r else set_cookie cookie r)

-- What `onClientMessage` does in the end: `sendResponse`, with no response where its pointer is null,
-- or a call of `processHTTPRequestAsync` whose callback has a cookie.
pub data Action : Type 0 where
  replied : Option Response → Action
  deferred : Text → Request → Action

-- `run` is the listener's `processHTTPRequest`, if there is a listener.
unfoldable pub act :
    (async : Bool) → Option (Request → Option Response) → Request → Verdict → Action
unfolding with_cookie build_buffered_response
act async run q (rejected r) = replied (some r)
act async none q (accepted cookie) =
    replied (some (build_buffered_response service_unavailable [] [] []))
act true (some run) q (accepted cookie) = deferred cookie q
act false (some run) q (accepted cookie) = replied (with_cookie cookie (run q))

-- `onClientMessage`, with the times and the numbers that its calls read; `none` where its behaviour is
-- not defined.
unfoldable pub on_client_message :
    Regex
    → (async : Bool) → Option (Request → Option Response)
    → (t0 t1 : ℕ) → (ℕ → ℕ)
    → Server
    → (buffer : Text) → Option (Action × Server)
unfolding request judge act
on_client_message rx async run t0 t1 rand server buffer =
    elim (judge rx t0 t1 rand server (request buffer)) [
      | none ↦ none
      | some (verdict, next) ↦ some (act async run (request buffer) verdict, next)
    ]

-- `onFramingError`, for the error `- error`.
unfoldable pub on_framing_error : (error : ℕ) → Response
unfolding build_buffered_response
on_framing_error error =
    if error == 3
    then build_buffered_response not_implemented [] [] []
    else if error == 2
    then build_buffered_response request_entity_too_large [] [] []
    else build_buffered_response service_unavailable [] [] []

-- `AsyncResponse`; a client is known by a number.
pub record AsyncResponse : Type 0 where
  pub client : ℕ
  pub resp : Option Response

-- The callback that `onClientMessage` gives to the listener: whether the answer waits in the queue.
unfoldable pub answer :
    (client : ℕ)
    → (cookie : Text) → Option Response
    → Ring AsyncResponse
    → Bool × Ring AsyncResponse
unfolding with_cookie put
answer client cookie resp queue =
    put queue (record { client = client; resp = with_cookie cookie resp })

-- `clients`, the keys of the map.
unfoldable pub has_client : ℕ → List ℕ → Bool
has_client c [] = false
has_client c (d ∷ cs) = d == c || has_client c cs

unfoldable pub on_client_connected : ℕ → List ℕ → List ℕ
unfolding has_client
on_client_connected c cs = if has_client c cs then cs else cs ++ c ∷ []

unfoldable pub on_client_disconnected : ℕ → List ℕ → List ℕ
on_client_disconnected c [] = []
on_client_disconnected c (d ∷ cs) =
    let rest = on_client_disconnected c cs in if d == c then rest else d ∷ rest

-- One answer: what is handed to `sendResponse` and is no null pointer.
unfoldable pub deliver : List ℕ → AsyncResponse → List (ℕ × Response) → List (ℕ × Response)
unfolding has_client
deliver clients ar rest = elim ar.resp [
  | none ↦ rest
  | some r ↦ if has_client ar.client clients then (ar.client, r) ∷ rest else rest
]

-- `processAsyncQueue`: the responses that are sent, each to its client, and the queue; `none` means
-- that the fuel ran out.
unfoldable pub process_async_queue :
    (fuel : ℕ) → List ℕ → Ring AsyncResponse → Option (List (ℕ × Response) × Ring AsyncResponse)
unfolding deliver
process_async_queue zero clients queue = none
process_async_queue (suc f) clients queue =
    let rest = process_async_queue f clients (get queue).1 in
    elim (get queue).0 [
      | none ↦ some ([], (get queue).1)
      | some ar ↦ elim rest [
        | none ↦ none
        | some (sent, left) ↦ some (deliver clients ar sent, left)
      ]
    ]
