-- ===== src/Utils/RingBuffer/Producers/Writes.antt =====
-- Steps of a producer of utils/MPSCRingBuffer.h that write nothing, or to the slot that it holds.
use dumais_lib.Prelude.{
  ℕ, ◌%◌, ◌≤◌, ◌<◌, ◌≡◌, ◌≢◌, inl, inr, ap, sym, ◌∙◌, arith, true, none, some, length, length-set,
}
use dumais_lib.Utils.RingBuffer.{Slot}
use dumais_lib.Utils.RingBuffer.Producers.{Memory, Pc, Cpc, write, update}
use dumais_lib.Utils.RingBuffer.Producers.Invariant.{
  window-mod, ticket, Reserved, Fits, IsFree, Inv,
}
use dumais_lib.Utils.RingBuffer.Producers.Frame.{
  update-all, SlotAt-write_ne, SlotAt-cases, Fits-write, held, FitsConsumer-keep,
}

module _ {A : Type 0} {m : Memory A} {ps : ℕ → Pc A} {c : Cpc A} (inv : Inv m ps c) where
  open inv use {storage, small, positive, log, room, head_at, tail_at, fits, unique, filled}

  -- Two numbers that have not been taken are the same if their slots are.
  pub same_slot :
      (t u : ℕ)
      → length m.taken ≤ t
      → t < length m.reserved
      → length m.taken ≤ u
      → u < length m.reserved
      → t % m.ring.size ≡ u % m.ring.size
      → t ≡ u
  same_slot t u ht tl hu ul e =
      window-mod m.ring.size (length m.taken) t u positive ht (omega arith) hu (omega arith) e

  module _ (i : ℕ) (p : Pc A) where
    -- The producer `i` comes to hold nothing.
    module _ (quiet : (t : ℕ) → ticket p ≡ some t → ticket (ps i) ≡ some t) where
      holder-quiet : (t j : ℕ) → ticket (update ps i p j) ≡ some t → ticket (ps j) ≡ some t
      holder-quiet t =
          update-all (λ j q. ticket q ≡ some t → ticket (ps j) ≡ some t) ps i p (quiet t)
            (λ j ne h. h)

      IsFree-quiet : (t : ℕ) → IsFree ps t → IsFree (update ps i p) t
      IsFree-quiet t free j h = free j (holder-quiet t j h)

      unique-quiet :
          (a b t : ℕ)
          → ticket (update ps i p a) ≡ some t
          → ticket (update ps i p b) ≡ some t
          → a ≡ b
      unique-quiet a b t x y = unique a b t (holder-quiet t a x) (holder-quiet t b y)

      -- A step that writes nothing.
      pub quiet-Inv : Fits m p → Inv m (update ps i p) c
      quiet-Inv f = record {
        storage = storage;
        small = small;
        positive = positive;
        log = log;
        room = room;
        head_at = head_at;
        tail_at = tail_at;
        fits = update-all (λ j. Fits m) ps i p f (λ j ne. fits j);
        unique = unique-quiet;
        filled =
            λ k s at v. let (t, (is, free)) = filled k s at v in (t, (is, IsFree-quiet t free));
        consumer =
            FitsConsumer-keep m m ps (update ps i p) c inv.consumer
              (λ x front. (front.0, IsFree-quiet (length m.taken) front.1)) (λ x s front at. at);
      }

      -- A write to its slot by the producer that holds it.
      pub write-Inv :
          (x : A) (old t : ℕ) (s : Slot A)
          → ticket (ps i) ≡ some t
          → Reserved m x old t
          → Fits (write m old s) p
          → (s.valid ≡ true → (s.item ≡ x) × (ticket p ≡ none))
          → Inv (write m old s) (update ps i p) c
      write-Inv x old t s mine (late, (is, at)) f done = record {
        storage = storage ∙ sym (length-set m.ring.items old s);
        small = small;
        positive = positive;
        log = log;
        room = room;
        head_at = head_at;
        tail_at = tail_at;
        fits =
            update-all (λ j. Fits (write m old s)) ps i p f
              (λ j ne. Fits-write m old s (ps j) (fits j) (λ u its. other j u ne its));
        unique = unique-quiet;
        filled = λ k s' there v. elim (SlotAt-cases m old k s' s there) [
          | inl (here, new) ↦
              let valid : s.valid ≡ true = ap (λ q. q.valid) new ∙ v in
              let item : s'.item ≡ x = sym (ap (λ q. q.item) new) ∙ (done valid).0 in
              (
                t,
                (
                  (late, (is ∙ ap some (sym item), sym here ∙ at)),
                  update-all (λ j q. ticket q ≢ some t) ps i p
                      (λ h. absurd (let e = (done valid).1 in cc))
                      (λ j ne h. ne (unique i j t mine h)),
                ),
              )
          | inr (ne, same) ↦
              let (u, (is', free)) = filled k s' same v in (u, (is', IsFree-quiet u free))
        ];
        consumer =
            FitsConsumer-keep m (write m old s) ps (update ps i p) c inv.consumer
              (λ x front. (front.0, IsFree-quiet (length m.taken) front.1))
              (λ x s' front there.
                SlotAt-write_ne m old m.ring.head s' s (λ e. front.1 i (mine ∙ ap some (first e)))
                  there);
      }
        where
          mine_in : (length m.taken ≤ t) × (t < length m.reserved)
          mine_in = held m (ps i) t (fits i) mine

          other : (j u : ℕ) → i ≢ j → ticket (ps j) ≡ some u → old ≢ u % m.ring.size
          other j u ne its e =
              let its_in = held m (ps j) u (fits j) its in
              let same : t ≡ u = same_slot t u mine_in.0 mine_in.1 its_in.0 its_in.1 (sym at ∙ e) in
              ne (unique i j t mine (its ∙ ap some (sym same)))

          first : old ≡ m.ring.head → t ≡ length m.taken
          first e =
              same_slot t (length m.taken) mine_in.0 mine_in.1 (omega arith)
                (omega (arith, mine_in.0, mine_in.1)) (sym at ∙ (e ∙ head_at))
