-- ===== src/Utils/RingBuffer/Producers/Frame.antt =====
-- What a write, a reservation or a move of one producer leaves as it was in a ring of
-- utils/MPSCRingBuffer.h.
use dumais_lib.Prelude.{
  ℕ, zero, suc, ◌%◌, ◌≤◌, ◌<◌, ◌≡◌, ◌≢◌, ◌⊎◌, inl, inr, refl, ap, sym, subst, ◌∙◌, arith,
  Bool-cases, some, List, [], ◌∷◌, length, length-append, set, get_elem?, ◌==◌, if◌then◌else◌,
}
use dumais_lib.Utils.RingBuffer.{Slot}
use dumais_lib.Utils.RingBuffer.Window.{get_elem?-set_self, get_elem?-set_ne}
use dumais_lib.Utils.RingBuffer.Producers.{
  Memory, Pc, idle, loaded, lost, reloaded, won, accepted, stored, Cpc, waiting, checked, found,
  copied, cleared, write, reserve, release, SlotAt, update,
}
use dumais_lib.Utils.RingBuffer.Producers.Invariant.{
  ticket, Reserved, Fits, Front, FitsConsumer, get_elem?-lt, get_elem?-append,
}

module _ {A : Type 0} where
  set-cases :
      (xs : List (Slot A)) (k j : ℕ) (s s' : Slot A)
      → get_elem? (set xs k s) j ≡ some s'
      → ((k ≡ j) × (s ≡ s')) ⊎ ((k ≢ j) × (get_elem? xs j ≡ some s'))
  set-cases [] k j s s' h = absurd (cc)
  set-cases (x ∷ xs) zero zero s s' h = inl (refl, cc)
  set-cases (x ∷ xs) zero (suc j) s s' h = inr (λ e. omega arith, h)
  set-cases (x ∷ xs) (suc k) zero s s' h = inr (λ e. omega arith, h)
  set-cases (x ∷ xs) (suc k) (suc j) s s' h = elim (set-cases xs k j s s' h) [
    | inl (e, f) ↦ inl (ap suc e, f)
    | inr (n, f) ↦ inr (λ e. n (omega arith), f)
  ]

  pub update-all :
      (P : ℕ → Pc A → Type 0) (ps : ℕ → Pc A) (i : ℕ) (p : Pc A)
      → P i p
      → ((j : ℕ) → i ≢ j → P j (ps j))
      → (j : ℕ) → P j (update ps i p j)
  update-all P ps i p here there j = elim (Bool-cases (i == j)) [
    | inl e ↦
        let same : i ≡ j = ground arith in
        subst (P j) (sym (ap (λ b. if b then p else ps j) e)) (subst (λ k. P k p) same here)
    | inr e ↦ subst (P j) (sym (ap (λ b. if b then p else ps j) e)) (there j (λ same. ground arith))
  ]

  pub SlotAt-write_self :
      (m : Memory A) (k : ℕ) (s t : Slot A) → SlotAt m k s → SlotAt (write m k t) k t
  SlotAt-write_self m k s t h =
      get_elem?-set_self m.ring.items k t (get_elem?-lt m.ring.items k s h)

  pub SlotAt-write_ne :
      (m : Memory A) (k j : ℕ) (s t : Slot A) → k ≢ j → SlotAt m j s → SlotAt (write m k t) j s
  SlotAt-write_ne m k j s t ne h = get_elem?-set_ne m.ring.items k j t ne ∙ h

  pub SlotAt-cases :
      (m : Memory A) (k j : ℕ) (s t : Slot A)
      → SlotAt (write m k t) j s
      → ((k ≡ j) × (t ≡ s)) ⊎ ((k ≢ j) × SlotAt m j s)
  SlotAt-cases m k j s t h = set-cases m.ring.items k j t s h

  pub Fits-write :
      (m : Memory A) (k : ℕ) (s : Slot A) (p : Pc A)
      → Fits m p
      → ((t : ℕ) → ticket p ≡ some t → k ≢ t % m.ring.size)
      → Fits (write m k s) p
  Fits-write m k s idle f ne = f
  Fits-write m k s (loaded x old new) f ne = f
  Fits-write m k s (lost x) f ne = f
  Fits-write m k s (reloaded x old new) f ne = f
  Fits-write m k s (won x old new t) f ne = f
  Fits-write m k s (accepted x old t) f ne = f
  Fits-write m k s (stored x old t) ((late, (is, at)), there) ne =
      ((late, (is, at)), SlotAt-write_ne m k old _ s (λ e. ne t refl (e ∙ at)) there)

  Reserved-reserve :
      (m : Memory A) (new : ℕ) (y x : A) (old t : ℕ)
      → Reserved m x old t
      → Reserved (reserve m new y) x old t
  Reserved-reserve m new y x old t (late, (is, at)) =
      (late, (get_elem?-append m.reserved (y ∷ []) t x is, at))

  pub Fits-reserve :
      (m : Memory A) (new : ℕ) (y : A) (p : Pc A) → Fits m p → Fits (reserve m new y) p
  Fits-reserve m new y idle f = f
  Fits-reserve m new y (loaded x old next) f = f
  Fits-reserve m new y (lost x) f = f
  Fits-reserve m new y (reloaded x old next) f = f
  Fits-reserve m new y (won x old next t) (f, e) = (Reserved-reserve m new y x old t f, e)
  Fits-reserve m new y (accepted x old t) f = Reserved-reserve m new y x old t f
  Fits-reserve m new y (stored x old t) (f, e) = (Reserved-reserve m new y x old t f, e)

  pub Reserved-release :
      (m : Memory A) (y x : A) (old t : ℕ)
      → t ≢ length m.taken
      → Reserved m x old t
      → Reserved (release m y) x old t
  Reserved-release m y x old t ne (late, (is, at)) =
      (omega (arith, length-append m.taken (y ∷ [])), (is, at))

  pub Fits-release :
      (m : Memory A) (y : A) (p : Pc A)
      → Fits m p
      → ticket p ≢ some (length m.taken)
      → Fits (release m y) p
  Fits-release m y idle f ne = f
  Fits-release m y (loaded x old next) f ne = f
  Fits-release m y (lost x) f ne = f
  Fits-release m y (reloaded x old next) f ne = f
  Fits-release m y (won x old next t) (f, e) ne =
      (Reserved-release m y x old t (λ same. ne (ap some same)) f, e)
  Fits-release m y (accepted x old t) f ne =
      Reserved-release m y x old t (λ same. ne (ap some same)) f
  Fits-release m y (stored x old t) (f, e) ne =
      (Reserved-release m y x old t (λ same. ne (ap some same)) f, e)

  -- What a producer that holds a reservation knows of it.
  pub held :
      (m : Memory A) (p : Pc A) (t : ℕ)
      → Fits m p
      → ticket p ≡ some t
      → (length m.taken ≤ t) × (t < length m.reserved)
  held m idle t f h = absurd (cc)
  held m (loaded x old next) t f h = absurd (cc)
  held m (lost x) t f h = absurd (cc)
  held m (reloaded x old next) t f h = absurd (cc)
  held m (won x old next u) t ((late, (is, at)), e) h =
      let same : u ≡ t = cc in omega (arith, get_elem?-lt m.reserved u x is)
  held m (accepted x old u) t (late, (is, at)) h =
      let same : u ≡ t = cc in omega (arith, get_elem?-lt m.reserved u x is)
  held m (stored x old u) t ((late, (is, at)), e) h =
      let same : u ≡ t = cc in omega (arith, get_elem?-lt m.reserved u x is)

  pub FitsConsumer-keep :
      (m n : Memory A) (ps qs : ℕ → Pc A) (c : Cpc A)
      → FitsConsumer m ps c
      → ((x : A) → Front m ps x → Front n qs x)
      → ((x : A) (s : Slot A) → Front m ps x → SlotAt m m.ring.head s → SlotAt n n.ring.head s)
      → FitsConsumer n qs c
  FitsConsumer-keep m n ps qs waiting f front slot = f
  FitsConsumer-keep m n ps qs checked f front slot = f
  FitsConsumer-keep m n ps qs found (x, (there, is)) front slot =
      (x, (slot x _ is there, front x is))
  FitsConsumer-keep m n ps qs (copied x) (there, is) front slot = (slot x _ is there, front x is)
  FitsConsumer-keep m n ps qs (cleared x) (there, is) front slot = (slot x _ is there, front x is)
