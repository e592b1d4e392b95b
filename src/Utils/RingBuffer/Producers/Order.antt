-- ===== src/Utils/RingBuffer/Producers/Order.antt =====
-- What producers and a consumer that run at once can rely on in the ring of utils/MPSCRingBuffer.h.
use dumais_lib.Prelude.{
  ℕ, zero, suc, ◌%◌, ◌^◌, ◌<◌, ◌≡◌, refl, ap, sym, ◌∙◌, arith, true, false, Option, none, some,
  List, [], ◌++◌, length, length-append, replicate, get_elem?,
}
use native.Mathlib.Nat.{zero-mod}
use dumais_lib.Utils.RingBuffer.{Slot, empty_ring}
use dumais_lib.Utils.RingBuffer.Producers.{
  Memory, Pc, accepted, stored, System, Step, produce, consume, start_system, Reach, start, later,
  HasRoom,
}
use dumais_lib.Utils.RingBuffer.Producers.Invariant.{ticket, Fits, Inv}
use dumais_lib.Utils.RingBuffer.Producers.Frame.{held}
use dumais_lib.Utils.RingBuffer.Producers.Moves.{Move-Inv}
use dumais_lib.Utils.RingBuffer.Producers.Writes.{same_slot}
use dumais_lib.Utils.RingBuffer.Producers.Takes.{Take-Inv}

module _ {A : Type 0} where
  length-replicate : (n : ℕ) (s : Slot A) → length (replicate n s) ≡ n
  length-replicate zero s = refl
  length-replicate (suc n) s = ap suc (length-replicate n s)

  get_elem?-replicate : (n k : ℕ) (s t : Slot A) → get_elem? (replicate n s) k ≡ some t → s ≡ t
  get_elem?-replicate zero k s t h = absurd (cc)
  get_elem?-replicate (suc n) zero s t h = cc
  get_elem?-replicate (suc n) (suc k) s t h = get_elem?-replicate n k s t h

  start-Inv :
      (blank : A) (size : ℕ)
      → 0 < size
      → size < 2 ^ 32
      → Inv
          (start_system blank size).mem
          (start_system blank size).producers
          (start_system blank size).consumer
  unfolding start_system empty_ring
  start-Inv blank size pos small = record {
    storage = sym (length-replicate size _);
    small = small;
    positive = pos;
    log = ([], refl);
    room = omega arith;
    head_at = sym (zero-mod size);
    tail_at = sym (zero-mod size);
    fits = λ j. tt;
    unique = λ i j t h k. absurd (cc);
    filled = λ k s at v.
        let e : record { item = blank; valid = false } ≡ s = get_elem?-replicate size k _ s at in
        absurd (let f : false ≡ true = ap (λ q. q.valid) e ∙ v in cc);
    consumer = tt;
  }

  Step-Inv :
      {s t u : System A} (r : Reach s t) (step : Step t u)
      → Inv t.mem t.producers t.consumer
      → HasRoom (later r step)
      → Inv u.mem u.producers u.consumer
  unfolding HasRoom
  Step-Inv r (produce i mv) inv ok = Move-Inv inv i mv refl ok.1
  Step-Inv r (consume tk) inv ok = Take-Inv inv tk

  HasRoom-before :
      {s t u : System A} (r : Reach s t) (step : Step t u) → HasRoom (later r step) → HasRoom r
  unfolding HasRoom
  HasRoom-before r (produce i mv) ok = ok.0
  HasRoom-before r (consume tk) ok = ok

  -- With any number of producers and a consumer that run at once, every state that is reached
  -- has the ring consistent: what has been taken are the first of the reserved items in order,
  -- the tail and the head count both, no two producers hold one reservation, and a slot is
  -- valid only when its item is there and its producer has returned. The ring has at least one
  -- slot and less than 2 ^ 32, and every compare-and-swap that won left a slot free.
  pub Reach-Inv :
      (blank : A) (size : ℕ)
      → 0 < size
      → size < 2 ^ 32
      → {s : System A} (r : Reach (start_system blank size) s) → HasRoom r
      → Inv s.mem s.producers s.consumer
  Reach-Inv blank size pos small start ok = start-Inv blank size pos small
  Reach-Inv blank size pos small (later r step) ok =
      Step-Inv r step (Reach-Inv blank size pos small r (HasRoom-before r step ok)) ok

  -- With producers and a consumer that run at once, what `get` has returned are the first of
  -- the items whose slots were reserved, in the order of the reservations, and fewer items
  -- than slots are on their way. The ring has at least one slot and less than 2 ^ 32, and
  -- every compare-and-swap that won left a slot free.
  pub taken-reserved :
      (blank : A) (size : ℕ)
      → 0 < size
      → size < 2 ^ 32
      → {s : System A} (r : Reach (start_system blank size) s) → HasRoom r
      → (rest : List A) × ((s.mem.taken ++ rest ≡ s.mem.reserved) × (length rest < s.mem.ring.size))
  taken-reserved blank size pos small {s} r ok =
      let inv = Reach-Inv blank size pos small r ok in
      (
        inv.log.0,
        (
          inv.log.1,
          omega (arith, inv.room, length-append s.mem.taken inv.log.0, ap length inv.log.1),
        ),
      )

  -- The slot that a producer is about to write to.
  unfoldable pub target : Pc A → Option ℕ
  target (accepted x old t) = some old
  target (stored x old t) = some old
  target _ = none

  target-ticket :
      (m : Memory A) (p : Pc A) (k : ℕ)
      → Fits m p
      → target p ≡ some k
      → (t : ℕ) × ((ticket p ≡ some t) × (k ≡ t % m.ring.size))
  unfolding target
  target-ticket m (accepted x old t) k (late, (is, at)) h =
      let same : old ≡ k = cc in (t, (refl, sym same ∙ at))
  target-ticket m (stored x old t) k ((late, (is, at)), there) h =
      let same : old ≡ k = cc in (t, (refl, sym same ∙ at))
  target-ticket m _ k f h = absurd (cc)

  -- No two producers are about to write to one slot, in any state that producers and a
  -- consumer that run at once reach. The ring has at least one slot and less than 2 ^ 32, and
  -- every compare-and-swap that won left a slot free.
  pub target_unique :
      (blank : A) (size : ℕ)
      → 0 < size
      → size < 2 ^ 32
      → {s : System A} (r : Reach (start_system blank size) s) → HasRoom r
      → (i j k : ℕ) → target (s.producers i) ≡ some k
      → target (s.producers j) ≡ some k
      → i ≡ j
  target_unique blank size pos small {s} r ok i j k hi hj =
      let inv = Reach-Inv blank size pos small r ok in
      let (t, (mine, at)) = target-ticket s.mem (s.producers i) k (inv.fits i) hi in
      let (u, (its, slot)) = target-ticket s.mem (s.producers j) k (inv.fits j) hj in
      let t_in = held s.mem (s.producers i) t (inv.fits i) mine in
      let u_in = held s.mem (s.producers j) u (inv.fits j) its in
      let same : t ≡ u = same_slot inv t u t_in.0 t_in.1 u_in.0 u_in.1 (sym at ∙ slot) in
      inv.unique i j u (mine ∙ ap some same) its
