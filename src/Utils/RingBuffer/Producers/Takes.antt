-- ===== src/Utils/RingBuffer/Producers/Takes.antt =====
-- A step of the consumer of utils/MPSCRingBuffer.h keeps the ring consistent.
use dumais_lib.Prelude.{
  ℕ, suc, ◌%◌, ◌<◌, ◌≡◌, ◌≢◌, inl, inr, ap, sym, subst, ◌∙◌, arith, true, false, some, [], ◌∷◌,
  ◌++◌, length, length-append, length-set, get_elem?,
}
use dumais_lib.Utils.RingBuffer.{Slot, next_index}
use dumais_lib.Utils.RingBuffer.Producers.{
  Memory, Pc, Cpc, waiting, checked, found, copied, cleared, write, release, SlotAt, Take, empty,
  some_left, unready, ready, copy, clear, advance,
}
use dumais_lib.Utils.RingBuffer.Producers.Invariant.{
  next_index-mod, Reserved, IsFree, Front, FitsConsumer, Inv, get_elem?-lt, prefix_next,
}
use dumais_lib.Utils.RingBuffer.Producers.Frame.{
  SlotAt-write_self, SlotAt-cases, Fits-write, Fits-release, Reserved-release, held,
}
use dumais_lib.Utils.RingBuffer.Producers.Writes.{same_slot}

module _ {A : Type 0} {m : Memory A} {ps : ℕ → Pc A} {c : Cpc A} (inv : Inv m ps c) where
  open inv use {storage, small, positive, log, room, head_at, tail_at, fits, unique, filled}

  -- A step that writes nothing.
  pause-Inv : (d : Cpc A) → FitsConsumer m ps d → Inv m ps d
  pause-Inv d f = record {
    storage = storage;
    small = small;
    positive = positive;
    log = log;
    room = room;
    head_at = head_at;
    tail_at = tail_at;
    fits = fits;
    unique = unique;
    filled = filled;
    consumer = f;
  }

  -- The valid slot at the head is that of the oldest reservation.
  Filled-Front : (x : A) (t : ℕ) → Reserved m x m.ring.head t → IsFree ps t → Front m ps x
  Filled-Front x t (late, (is, at)) free =
      let before : t < length m.reserved = get_elem?-lt m.reserved t x is in
      let same : t ≡ length m.taken =
        same_slot inv t (length m.taken) late before (omega arith) (omega arith)
          (sym at ∙ head_at) in
      (ap (get_elem? m.reserved) (sym same) ∙ is, λ j e. free j (e ∙ ap some (sym same)))

  ready-Inv : (s : Slot A) → SlotAt m m.ring.head s → s.valid ≡ true → Inv m ps found
  ready-Inv s there valid =
      let (t, (is, free)) = filled m.ring.head s there valid in
      pause-Inv found (
        s.item,
        (
          there ∙ ap (λ v. some (record { item = s.item; valid = v })) valid,
          Filled-Front s.item t is free,
        ),
      )

  copy-Inv :
      (s : Slot A) → SlotAt m m.ring.head s → FitsConsumer m ps found → Inv m ps (copied s.item)
  copy-Inv s there (x, (is_there, front)) =
      let both : some (record { item = x; valid = true }) ≡ some s = sym is_there ∙ there in
      let same : record { item = x; valid = true } ≡ s = cc in
      let item : x ≡ s.item = ap (λ q. q.item) same in
      pause-Inv (copied s.item) (subst (λ y. FitsConsumer m ps (copied y)) item (is_there, front))

  clear-Inv :
      (x : A) (s : Slot A)
      → SlotAt m m.ring.head s
      → FitsConsumer m ps (copied x)
      → Inv (write m m.ring.head (record s { valid = false })) ps (cleared x)
  clear-Inv x s there (is_there, (is, free)) = record {
    storage = storage ∙ sym (length-set m.ring.items m.ring.head (record s { valid = false }));
    small = small;
    positive = positive;
    log = log;
    room = room;
    head_at = head_at;
    tail_at = tail_at;
    fits = λ j.
        Fits-write m m.ring.head (record s { valid = false }) (ps j) (fits j)
          (λ t its e.
            let its_in = held m (ps j) t (fits j) its in
            let same : t ≡ length m.taken =
              same_slot inv t (length m.taken) its_in.0 its_in.1 (omega arith)
                (omega (arith, its_in.0, its_in.1)) (sym e ∙ head_at) in
            free j (its ∙ ap some same));
    unique = unique;
    filled = λ k s' at v. elim (SlotAt-cases m m.ring.head k s' (record s { valid = false }) at) [
      | inl (here, new) ↦ absurd (let e : false ≡ true = ap (λ q. q.valid) new ∙ v in cc)
      | inr (ne, same) ↦ filled k s' same v
    ];
    consumer = (
      SlotAt-write_self m m.ring.head s (record s { valid = false }) there
          ∙ ap (λ y. some (record { item = y; valid = false })) item,
      (is, free),
    );
  }
    where
      item : s.item ≡ x
      item =
          let both : some s ≡ some (record { item = x; valid = true }) = sym there ∙ is_there in
          let same : s ≡ record { item = x; valid = true } = cc in ap (λ q. q.item) same

  advance-Inv : (x : A) → FitsConsumer m ps (cleared x) → Inv (release m x) ps waiting
  advance-Inv x (empty_there, (is, free)) = record {
    storage = storage;
    small = small;
    positive = positive;
    log = prefix_next m.taken log.0 m.reserved x log.1 is;
    room = omega (arith, room, one_more);
    head_at =
        ap (next_index m.ring.size) head_at
        ∙ (next_index-mod m.ring.size (length m.taken) positive small
            ∙ ap (λ n. n % m.ring.size) (sym one_more));
    tail_at = tail_at;
    fits = λ j. Fits-release m x (ps j) (fits j) (free j);
    unique = unique;
    filled = λ k s at v.
        let (t, (res, unheld)) = filled k s at v in
        (
          t,
          (Reserved-release m x s.item k t (λ same. emptied k s t at v res.1.1 same) res, unheld),
        );
    consumer = tt;
  }
    where
      one_more : length (m.taken ++ x ∷ []) ≡ suc (length m.taken)
      one_more = omega (arith, length-append m.taken (x ∷ []))

      emptied :
          (k : ℕ) (s : Slot A) (t : ℕ)
          → SlotAt m k s
          → s.valid ≡ true
          → k ≡ t % m.ring.size
          → t ≢ length m.taken
      emptied k s t at v slot same =
          let here : m.ring.head ≡ k =
            head_at ∙ (ap (λ n. n % m.ring.size) (sym same) ∙ sym slot) in
          let both : some (record { item = x; valid = false }) ≡ some s =
            sym empty_there ∙ (ap (get_elem? m.ring.items) here ∙ at) in
          let e : record { item = x; valid = false } ≡ s = cc in
          absurd (let f : false ≡ true = ap (λ q. q.valid) e ∙ v in cc)

pub Take-Inv :
    {A : Type 0} {m n : Memory A} {ps : ℕ → Pc A} {c d : Cpc A}
    → Inv m ps c
    → Take m c n d
    → Inv n ps d
Take-Inv inv (empty e) = inv
Take-Inv inv (some_left ne) = pause-Inv inv checked tt
Take-Inv inv (unready there invalid) = pause-Inv inv waiting tt
Take-Inv inv (ready {s} there valid) = ready-Inv inv s there valid
Take-Inv inv (copy {s} there) = copy-Inv inv s there inv.consumer
Take-Inv inv (clear {x} {s} there) = clear-Inv inv x s there inv.consumer
Take-Inv inv (advance {x}) = advance-Inv inv x inv.consumer
