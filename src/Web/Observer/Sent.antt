-- ===== src/Web/Observer/Sent.antt =====
-- What `WebServer::sendResponse` of webserver/WebServer.cpp adds to what a client has to send.
use dumais_lib.Prelude.{
  suc, ◌+◌, ◌<◌, ◌≡◌, refl, ap, sym, ◌∙◌, arith, some, List, [], ◌∷◌, ◌++◌, Text, length,
  length-append, append_assoc, append-nil,
}
use dumais_lib.Utils.RingBuffer.{Ring, put}
use dumais_lib.Utils.RingBuffer.Refine.{Holds, put_room}
use dumais_lib.Web.Client.{SendBuffer, Client, send_data, left_of}
use dumais_lib.Web.Sending.{waiting, waiting-append, Pending}
use dumais_lib.Web.Response.{Response, with_header, send_all, send_response}
use dumais_lib.Web.Chunks.{joined, send_response-ends}

size-put : (r : Ring SendBuffer) (b : SendBuffer) → (put r b).1.size ≡ r.size
unfolding put
size-put r b = ground arith

-- The client's ring gets all of the texts behind what it has.
send_all-Holds :
    (c : Client) (q : List SendBuffer) (cs : List Text)
    → Holds c.tx_list q
    → length q + length cs < c.tx_list.size
    → (q' : List SendBuffer) × Holds (send_all c cs).tx_list q'
      × (waiting q' ≡ waiting q ++ joined cs)
      × ((send_all c cs).current ≡ c.current)
unfolding send_all send_data joined waiting
send_all-Holds c q [] h room = (q, h, sym (append-nil (waiting q)), refl)
send_all-Holds c q (s ∷ cs) h room =
    let b : SendBuffer = record { buffer = s; current_index = 0 } in
    let (q', holds, bytes, same) =
      send_all-Holds (send_data c s) (q ++ b ∷ []) cs (put_room c.tx_list q b h (omega arith)).1
        (omega (arith, length-append q (b ∷ []), size-put c.tx_list b)) in
    (
      q',
      holds,
      bytes
          ∙ ap (λ t. t ++ joined cs)
              (waiting-append q (b ∷ []) ∙ ap (λ t. waiting q ++ t) (append-nil s))
          ∙ append_assoc (waiting q) s (joined cs),
      same,
    )

joined-append_empty : (cs : List Text) → joined (cs ++ [] ∷ []) ≡ joined cs
unfolding joined
joined-append_empty [] = refl
joined-append_empty (s ∷ cs) = ap (λ t. s ++ t) (joined-append_empty cs)

-- The header and the content of a response come behind what a client has to send, if its ring has room
-- for the chunks and one more.
pub send_response-Pending :
    (r : Response) (c : Client) (q : List SendBuffer)
    → Holds c.tx_list q
    → length q + (length (with_header r).content + 1) < c.tx_list.size
    → (d : Client) × (send_response (suc (length (with_header r).content)) r c ≡ some d)
      × Pending d (left_of c.current ++ (waiting q ++ (with_header r).content))
unfolding Pending
send_response-Pending r c q h room =
    let (cs, join, few, run) = send_response-ends r c in
    let (q', holds, bytes, same) =
      send_all-Holds c q (cs ++ [] ∷ []) h (omega (arith, few, length-append cs ([] ∷ []))) in
    (
      send_all c (cs ++ [] ∷ []),
      run,
      (
        q',
        holds,
        ap (λ o. left_of o ++ waiting q') same
            ∙ ap (λ t. left_of c.current ++ t)
                (bytes ∙ ap (λ t. waiting q ++ t) (joined-append_empty cs ∙ join)),
      ),
    )
