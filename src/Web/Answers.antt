-- ===== src/Web/Answers.antt =====
-- The answers of a listener that `WebServer::processAsyncQueue` of webserver/WebServer.cpp sends.
use dumais_lib.Prelude.{
  ℕ, zero, suc, ◌<◌, ◌≡◌, ◌⊎◌, refl, Option, arith, none, some, List, [], ◌∷◌, ap, length, true,
  false, ◌==◌, Bool-cases, inl, inr, subst, sym,
}
use dumais_lib.Utils.RingBuffer.{Ring, get}
use dumais_lib.Utils.RingBuffer.Refine.{Holds, get-cons, get-nil}
use dumais_lib.Web.Response.{Response}
use dumais_lib.Web.Serving.{AsyncResponse, has_client, deliver, process_async_queue}

-- A client that is one of the clients.
unfoldable pub IsIn : ℕ → List ℕ → Type 0
IsIn c [] = ⊥
IsIn c (d ∷ ds) = (d ≡ c) ⊎ IsIn c ds

-- What answers lead to: the responses for the clients that are still there, in the order of the
-- answers, and nothing for those that are gone and for answers without a response.
pub data Delivered (clients : List ℕ) : List AsyncResponse → List (ℕ × Response) → Type 0 where
  no_more : Delivered clients [] []
  to_client :
      (ar : AsyncResponse) (r : Response) (ars : List AsyncResponse) (rest : List (ℕ × Response))
      → ar.resp ≡ some r
      → IsIn ar.client clients
      → Delivered clients ars rest
      → Delivered clients (ar ∷ ars) ((ar.client, r) ∷ rest)
  to_nobody :
      (ar : AsyncResponse) (ars : List AsyncResponse) (rest : List (ℕ × Response))
      → (ar.resp ≡ none) ⊎ (¬ IsIn ar.client clients)
      → Delivered clients ars rest
      → Delivered clients (ar ∷ ars) rest

has_client-IsIn : (c : ℕ) (ds : List ℕ) → has_client c ds ≡ true → IsIn c ds
unfolding has_client IsIn
has_client-IsIn c [] h = absurd (cc)
has_client-IsIn c (d ∷ ds) h = elim (Bool-cases (d == c)) [
  | inl e ↦ inl (ground arith)
  | inr e ↦ inr (has_client-IsIn c ds (rw e at h))
]

has_client-absent : (c : ℕ) (ds : List ℕ) → has_client c ds ≡ false → ¬ IsIn c ds
unfolding has_client IsIn
has_client-absent c [] h = λ k. k
has_client-absent c (d ∷ ds) h = elim (Bool-cases (d == c)) [
  | inl e ↦ absurd (let f : true ≡ false = rw e at h in cc)
  | inr e ↦ λ k. elim k [ inl same ↦ ground arith | inr is ↦ has_client-absent c ds (rw e at h) is ]
]

deliver-Delivered :
    (clients : List ℕ) (ar : AsyncResponse) (ars : List AsyncResponse) (rest : List (ℕ × Response))
    → Delivered clients ars rest
    → Delivered clients (ar ∷ ars) (deliver clients ar rest)
unfolding deliver
deliver-Delivered clients ar ars rest h = from ar.resp refl
  where
    from :
        (o : Option Response) → ar.resp ≡ o → Delivered clients (ar ∷ ars) (deliver clients ar rest)
    from none e =
        let same : deliver clients ar rest ≡ rest = rw (deliver, e) refl in
        subst (Delivered clients (ar ∷ ars)) (sym same) (to_nobody ar ars rest (inl e) h)
    from (some r) e = elim (Bool-cases (has_client ar.client clients)) [
      | inl is ↦
          let same : deliver clients ar rest ≡ (ar.client, r) ∷ rest = rw (deliver, e, is) refl in
          subst (Delivered clients (ar ∷ ars)) (sym same)
            (to_client ar r ars rest e (has_client-IsIn ar.client clients is) h)
      | inr is ↦
          let same : deliver clients ar rest ≡ rest = rw (deliver, e, is) refl in
          subst (Delivered clients (ar ∷ ars)) (sym same)
            (to_nobody ar ars rest (inr (has_client-absent ar.client clients is)) h)
    ]

-- The responses that the rounds make of the answers.
unfoldable pub deliveries : List ℕ → List AsyncResponse → List (ℕ × Response)
unfolding deliver
deliveries clients [] = []
deliveries clients (ar ∷ ars) = deliver clients ar (deliveries clients ars)

deliveries-Delivered :
    (clients : List ℕ) (ars : List AsyncResponse) → Delivered clients ars (deliveries clients ars)
unfolding deliveries
deliveries-Delivered clients [] = no_more
deliveries-Delivered clients (ar ∷ ars) =
    deliver-Delivered clients ar ars (deliveries clients ars) (deliveries-Delivered clients ars)

process_async_queue-next :
    (f : ℕ) (clients : List ℕ) (queue : Ring AsyncResponse) (ar : AsyncResponse)
    (sent : List (ℕ × Response)) (left : Ring AsyncResponse)
    → (get queue).0 ≡ some ar
    → process_async_queue f clients (get queue).1 ≡ some (sent, left)
    → process_async_queue (suc f) clients queue ≡ some (deliver clients ar sent, left)
unfolding process_async_queue
process_async_queue-next f clients queue ar sent left found rest =
    rw (process_async_queue, found, rest) refl

process_async_queue-end :
    (f : ℕ) (clients : List ℕ) (queue : Ring AsyncResponse)
    → get queue ≡ (none, queue)
    → process_async_queue (suc f) clients queue ≡ some ([], queue)
unfolding process_async_queue
process_async_queue-end f clients queue e = rw (process_async_queue, e) (ap (λ p. some ([], p.1)) e)

pub process_async_queue-run :
    (f : ℕ) (clients : List ℕ) (queue : Ring AsyncResponse) (ars : List AsyncResponse)
    → Holds queue ars
    → length ars < f
    → (left : Ring AsyncResponse) × ((process_async_queue f clients queue
          ≡ some (deliveries clients ars, left))
        × Holds left [])
unfolding deliveries
process_async_queue-run zero clients queue ars h k = absurd (omega arith)
process_async_queue-run (suc f) clients queue [] h k =
    (queue, (process_async_queue-end f clients queue (get-nil queue h), h))
process_async_queue-run (suc f) clients queue (ar ∷ ars) h k =
    let (found, rest) = get-cons queue ar ars h in
    let (left, (run, empty)) =
      process_async_queue-run f clients (get queue).1 ars rest (omega arith) in
    (
      left,
      (process_async_queue-next f clients queue ar (deliveries clients ars) left found run, empty),
    )

-- `processAsyncQueue` on a queue of answers ends, with as many rounds as there are answers and
-- one more: it sends the responses of the answers, in order, to the clients that are still
-- there, leaves out the others, and the queue is empty then.
pub process_async_queue-deliveries :
    (f : ℕ) (clients : List ℕ) (queue : Ring AsyncResponse) (ars : List AsyncResponse)
    → Holds queue ars
    → length ars < f
    → (sent : List (ℕ × Response)) × (left : Ring AsyncResponse) × (process_async_queue f clients
          queue
        ≡ some (sent, left))
      × Delivered clients ars sent
      × Holds left []
process_async_queue-deliveries f clients queue ars h k =
    let (left, (run, nothing)) = process_async_queue-run f clients queue ars h k in
    (deliveries clients ars, left, run, deliveries-Delivered clients ars, nothing)
