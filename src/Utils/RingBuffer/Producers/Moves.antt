-- ===== src/Utils/RingBuffer/Producers/Moves.antt =====
-- A step of a producer of utils/MPSCRingBuffer.h keeps the ring consistent.
use dumais_lib.Prelude.{
  ℕ, suc, ◌+◌, ◌%◌, ◌≤◌, ◌<◌, ◌≡◌, ◌≢◌, ◌⊎◌, inl, inr, refl, ap, sym, subst, ◌∙◌, arith, true,
  false, Bool-cases, some, [], ◌∷◌, ◌++◌, length, length-append, append_assoc, get_elem?,
}
use native.Mathlib.Nat.{add-mod_right, mod-lt}
use dumais_lib.Utils.RingBuffer.{Slot, next_index}
use dumais_lib.Utils.RingBuffer.Producers.{
  Memory, Pc, idle, loaded, won, accepted, stored, Cpc, write, reserve, SlotAt, update, LeavesRoom,
  Move, load, cas_win, cas_lose, reload, refuse, retry, overflow, accept, store, publish,
}
use dumais_lib.Utils.RingBuffer.Producers.Invariant.{
  next_index-mod, window-mod, ticket, Reserved, Fits, IsFree, Inv, get_elem?-lt, get_elem?-append,
  get_elem?-append_next,
}
use dumais_lib.Utils.RingBuffer.Producers.Frame.{
  update-all, SlotAt-write_self, Fits-reserve, held, FitsConsumer-keep,
}
use dumais_lib.Utils.RingBuffer.Producers.Writes.{same_slot, quiet-Inv, write-Inv}

module _ {A : Type 0} {m : Memory A} {ps : ℕ → Pc A} {c : Cpc A} (inv : Inv m ps c) where
  open inv use {storage, small, positive, log, room, head_at, tail_at, fits, unique, filled}

  module _ (i : ℕ) where
    -- The slot that a producer holds is not valid.
    held_slot :
        (x : A) (old t : ℕ) (s : Slot A)
        → ticket (ps i) ≡ some t
        → Reserved m x old t
        → SlotAt m old s
        → s.valid ≡ false
    held_slot x old t s mine (late, (is, at)) there = elim (Bool-cases s.valid) [
      | inr e ↦ e
      | inl e ↦
          let (u, (its, free)) = filled old s there e in
          let mine_in = held m (ps i) t (fits i) mine in
          let same : t ≡ u =
            same_slot inv t u mine_in.0 mine_in.1 its.0 (get_elem?-lt m.reserved u s.item its.1.0)
              (sym at ∙ its.1.1) in
          absurd (free i (mine ∙ ap some same))
    ]

    pub store-Inv :
        (x : A) (old t : ℕ) (s : Slot A)
        → ps i ≡ accepted x old t
        → SlotAt m old s
        → Inv (write m old (record s { item = x })) (update ps i (stored x old t)) c
    store-Inv x old t s here there =
        let f : Reserved m x old t = subst (Fits m) here (fits i) in
        let mine : ticket (ps i) ≡ some t = ap ticket here in
        let unset : s.valid ≡ false = held_slot x old t s mine f there in
        write-Inv inv i (stored x old t) (λ u e. mine ∙ e) x old t (record s { item = x }) mine f
          (
            f,
            SlotAt-write_self m old s (record s { item = x }) there
                ∙ ap (λ v. some (record { item = x; valid = v })) unset,
          )
          (λ v. absurd (cc))

    pub publish-Inv :
        (x : A) (old t : ℕ) (s : Slot A)
        → ps i ≡ stored x old t
        → SlotAt m old s
        → Inv (write m old (record s { valid = true })) (update ps i idle) c
    publish-Inv x old t s here there =
        let (f, item) : Fits m (stored x old t) = subst (Fits m) here (fits i) in
        let mine : ticket (ps i) ≡ some t = ap ticket here in
        let both : some s ≡ some (record { item = x; valid = false }) = sym there ∙ item in
        let same : s ≡ record { item = x; valid = false } = cc in
        write-Inv inv i idle (λ u e. absurd (cc)) x old t (record s { valid = true }) mine f tt
          (λ v. (ap (λ q. q.item) same, refl))

    won-Fits :
        (x : A) (old new : ℕ)
        → ps i ≡ loaded x old new
        → m.ring.tail ≡ old
        → Fits (reserve m new x) (won x old new (length m.reserved))
    won-Fits x old new here same =
        let (below, next) : Fits m (loaded x old new) = subst (Fits m) here (fits i) in
        let late : length m.taken ≤ length m.reserved =
          omega (arith, length-append m.taken log.0, ap length log.1) in
        ((late, (get_elem?-append_next m.reserved [] x, sym same ∙ tail_at)), next)

    -- A reservation that leaves a slot free.
    pub reserve-Inv :
        (x : A) (old new : ℕ)
        → ps i ≡ loaded x old new
        → m.ring.tail ≡ old
        → new ≢ m.ring.head
        → Inv (reserve m new x) (update ps i (won x old new (length m.reserved))) c
    reserve-Inv x old new here same free = record {
      storage = storage;
      small = small;
      positive = positive;
      log = (
        log.0 ++ x ∷ [],
        sym (append_assoc m.taken log.0 (x ∷ [])) ∙ ap (λ l. l ++ x ∷ []) log.1,
      );
      room = omega (arith, room, not_full, size_next);
      head_at = head_at;
      tail_at = next ∙ ap (λ n. n % m.ring.size) (sym size_next);
      fits =
          update-all (λ j. Fits (reserve m new x)) ps i (won x old new (length m.reserved))
            (won-Fits x old new here same) (λ j ne. Fits-reserve m new x (ps j) (fits j));
      unique = λ a b t ha hb. elim (holder t a ha) [
        | inl (ea, ta) ↦ elim (holder t b hb) [
          | inl (eb, tb) ↦ sym ea ∙ eb
          | inr old_b ↦ absurd (omega (arith, (held m (ps b) t (fits b) old_b).1))
        ]
        | inr old_a ↦ elim (holder t b hb) [
          | inl (eb, tb) ↦ absurd (omega (arith, (held m (ps a) t (fits a) old_a).1))
          | inr old_b ↦ unique a b t old_a old_b
        ]
      ];
      filled = λ k s at v.
          let (t, ((late, (is, slot)), unheld)) = filled k s at v in
          (
            t,
            (
              (late, (get_elem?-append m.reserved (x ∷ []) t s.item is, slot)),
              still_free s.item t is unheld,
            ),
          );
      consumer =
          FitsConsumer-keep m (reserve m new x) ps _ c inv.consumer
            (λ y front. (
              get_elem?-append m.reserved (x ∷ []) (length m.taken) y front.0,
              still_free y (length m.taken) front.0 front.1,
            ))
            (λ y s front at. at);
    }
      where
        size_next : length (m.reserved ++ x ∷ []) ≡ suc (length m.reserved)
        size_next = omega (arith, length-append m.reserved (x ∷ []))

        next : new ≡ suc (length m.reserved) % m.ring.size
        next =
            let (below, is) : Fits m (loaded x old new) = subst (Fits m) here (fits i) in
            is
            ∙ (ap (next_index m.ring.size) (sym same ∙ tail_at)
                ∙ next_index-mod m.ring.size (length m.reserved) positive small)

        not_full : suc (length m.reserved) ≢ length m.taken + m.ring.size
        not_full full = free (
            next
            ∙ (ap (λ n. n % m.ring.size) full
                ∙ (add-mod_right (length m.taken) m.ring.size ∙ sym head_at)))

        holder :
            (t j : ℕ)
            → ticket (update ps i (won x old new (length m.reserved)) j) ≡ some t
            → ((i ≡ j) × (t ≡ length m.reserved)) ⊎ (ticket (ps j) ≡ some t)
        holder t =
            update-all
              (λ j q.
                ticket q ≡ some t → ((i ≡ j) × (t ≡ length m.reserved)) ⊎ (ticket (ps j) ≡ some t))
              ps i (won x old new (length m.reserved)) (λ h. inl (refl, cc)) (λ j ne h. inr h)

        still_free :
            (y : A) (t : ℕ)
            → get_elem? m.reserved t ≡ some y
            → IsFree ps t
            → IsFree (update ps i (won x old new (length m.reserved))) t
        still_free y t is unheld =
            update-all (λ j q. ticket q ≢ some t) ps i (won x old new (length m.reserved))
              (λ h. absurd (
                let e : length m.reserved ≡ t = cc in
                omega (arith, get_elem?-lt m.reserved t y is)))
              (λ j ne. unheld j)

    -- A producer that has won finds a slot free.
    no_overflow : (x : A) (old new t : ℕ) → ps i ≡ won x old new t → new ≢ m.ring.head
    no_overflow x old new t here full =
        let ((late, (is, at)), step) : Fits m (won x old new t) = subst (Fits m) here (fits i) in
        let wrapped : suc t % m.ring.size ≡ length m.taken % m.ring.size =
          sym (next_index-mod m.ring.size t positive small)
          ∙ (ap (next_index m.ring.size) (sym at) ∙ (sym step ∙ (full ∙ head_at))) in
        let before : t < length m.reserved = get_elem?-lt m.reserved t x is in
        let meet : suc t ≡ length m.taken =
          window-mod m.ring.size (length m.taken) (suc t) (length m.taken) positive (omega arith)
            (omega (arith, room)) (omega arith) (omega arith) wrapped in
        omega arith

    tail_fits :
        (m.ring.tail < m.ring.size)
        × (next_index m.ring.size m.ring.tail ≡ next_index m.ring.size m.ring.tail)
    tail_fits =
        (subst (λ n. n < m.ring.size) (sym tail_at) (mod-lt (length m.reserved) positive), refl)

    pub Move-Inv :
        {p p' : Pc A} {n : Memory A} (mv : Move m p n p')
        → ps i ≡ p
        → LeavesRoom mv
        → Inv n (update ps i p') c
    Move-Inv load here ok = quiet-Inv inv i _ (λ t e. absurd (cc)) tail_fits
    Move-Inv (cas_win {x} {old} {new} won_it) here ok = reserve-Inv x old new here won_it ok
    Move-Inv (cas_lose ne) here ok = quiet-Inv inv i _ (λ t e. absurd (cc)) tt
    Move-Inv reload here ok = quiet-Inv inv i _ (λ t e. absurd (cc)) tail_fits
    Move-Inv (refuse full) here ok = quiet-Inv inv i _ (λ t e. absurd (cc)) tt
    Move-Inv (retry {x} {old} {new} ne) here ok =
        quiet-Inv inv i _ (λ t e. absurd (cc)) (subst (Fits m) here (fits i))
    Move-Inv (overflow {x} {old} {new} {t} full) here ok =
        absurd (no_overflow x old new t here full)
    Move-Inv (accept {x} {old} {new} {t} ne) here ok =
        let (f, step) : Fits m (won x old new t) = subst (Fits m) here (fits i) in
        quiet-Inv inv i (accepted x old t) (λ u e. ap ticket here ∙ e) f
    Move-Inv (store {x} {old} {t} {s} there) here ok = store-Inv x old t s here there
    Move-Inv (publish {x} {old} {t} {s} there) here ok = publish-Inv x old t s here there
