-- ===== src/Utils/RingBuffer/Producers/Invariant.antt =====
-- Who holds which slot of a ring of utils/MPSCRingBuffer.h while producers and a consumer run.
use dumais_lib.Prelude.{
  ℕ, zero, suc, ◌+◌, ◌-◌, ◌%◌, ◌^◌, ◌≤◌, ◌<◌, ◌≡◌, ◌≢◌, refl, ap, sym, ◌∙◌, arith, true, false,
  Option, none, some, List, [], ◌∷◌, ◌++◌, length, get_elem?,
}
use native.Mathlib.Decide.{dec_lt}
use native.Mathlib.Nat.{mod-eq_of_lt, mod-eq-sub-mod, mod-add-mod, mod-lt}
use dumais_lib.Utils.RingBuffer.{Slot, next_index}
use dumais_lib.Utils.RingBuffer.Producers.{
  Memory, Pc, loaded, reloaded, won, accepted, stored, Cpc, waiting, checked, found, copied,
  cleared, SlotAt,
}

pub next_index-mod :
    (size t : ℕ) → 0 < size → size < 2 ^ 32 → next_index size (t % size) ≡ suc t % size
next_index-mod size t pos small =
    let below : t % size < size = mod-lt t pos in
    ap (λ k. k % size) (mod-eq_of_lt {n = t % size + 1} {m = 2 ^ 32} (omega arith))
    ∙ (mod-add-mod t size 1 ∙ ap (λ k. k % size) {x = t + 1} {y = suc t} (omega arith))

mod_shift : (size t d : ℕ) → 0 < size → d < size → (t + d) % size ≡ t % size → d ≡ 0
mod_shift size t d pos small e =
    let below : t % size < size = mod-lt t pos in
    let sum : (t % size + d) % size ≡ t % size = mod-add-mod t size d ∙ e in
    elim (dec_lt (t % size + d) size) [
      | yes within ↦ omega (arith, mod-eq_of_lt within, sum)
      | no past ↦
          let over : size ≤ t % size + d = omega arith in
          let rest : t % size + d - size < size = omega arith in
          omega (arith, mod-eq-sub-mod over, mod-eq_of_lt rest, sum)
    ]

-- Two numbers of one window are the same if their slots are.
pub window-mod :
    (size h t u : ℕ)
    → 0 < size
    → h ≤ t
    → t < h + size
    → h ≤ u
    → u < h + size
    → t % size ≡ u % size
    → t ≡ u
window-mod size h t u pos ht tl hu ul e = elim (dec_lt t u) [
  | yes before ↦
      let sum : t + (u - t) ≡ u = omega arith in
      let zero_gap : u - t ≡ 0 =
        mod_shift size t (u - t) pos (omega arith) (ap (λ k. k % size) sum ∙ sym e) in
      omega arith
  | no after ↦
      let sum : u + (t - u) ≡ t = omega arith in
      let zero_gap : t - u ≡ 0 =
        mod_shift size u (t - u) pos (omega arith) (ap (λ k. k % size) sum ∙ e) in
      omega arith
]

module _ {A : Type 0} where
  -- The number of the reservation that a producer holds.
  abbrev pub ticket : Pc A → Option ℕ
  ticket (won _ _ _ t) = some t
  ticket (accepted _ _ t) = some t
  ticket (stored _ _ t) = some t
  ticket _ = none

  -- Reservation `t` is of `x`, its slot is `old`, and it has not been taken.
  abbrev pub Reserved : Memory A → A → ℕ → ℕ → Type 0
  Reserved m x old t =
      (length m.taken ≤ t) × ((get_elem? m.reserved t ≡ some x) × (old ≡ t % m.ring.size))

  abbrev pub Fits : Memory A → Pc A → Type 0
  Fits m (loaded x old new) = (old < m.ring.size) × (new ≡ next_index m.ring.size old)
  Fits m (reloaded x old new) = (old < m.ring.size) × (new ≡ next_index m.ring.size old)
  Fits m (won x old new t) = Reserved m x old t × (new ≡ next_index m.ring.size old)
  Fits m (accepted x old t) = Reserved m x old t
  Fits m (stored x old t) = Reserved m x old t × SlotAt m old (record { item = x; valid = false })
  Fits m _ = Unit

  abbrev pub IsFree : (ℕ → Pc A) → ℕ → Type 0
  IsFree ps t = (j : ℕ) → ticket (ps j) ≢ some t

  -- The oldest reservation is of `x`, and its producer has returned.
  abbrev pub Front : Memory A → (ℕ → Pc A) → A → Type 0
  Front m ps x = (get_elem? m.reserved (length m.taken) ≡ some x) × IsFree ps (length m.taken)

  abbrev pub FitsConsumer : Memory A → (ℕ → Pc A) → Cpc A → Type 0
  FitsConsumer m ps waiting = Unit
  FitsConsumer m ps checked = Unit
  FitsConsumer m ps found =
      (x : A) × (SlotAt m m.ring.head (record { item = x; valid = true }) × Front m ps x)
  FitsConsumer m ps (copied x) =
      SlotAt m m.ring.head (record { item = x; valid = true }) × Front m ps x
  FitsConsumer m ps (cleared x) =
      SlotAt m m.ring.head (record { item = x; valid = false }) × Front m ps x

  -- The reservation that a valid slot is of.
  abbrev pub Filled : Memory A → (ℕ → Pc A) → ℕ → A → Type 0
  Filled m ps k x = (t : ℕ) × (Reserved m x k t × IsFree ps t)

-- `put` and `get` keep the ring consistent: what has been taken are the first of the items reserved,
-- in order; the tail and the head count the reservations and the items taken; no two producers hold
-- one reservation; and a slot is valid only when its item is there and its producer has returned.
pub record Inv {A : Type 0} (m : Memory A) (ps : ℕ → Pc A) (c : Cpc A) : Type 0 where
  pub storage : m.ring.size ≡ length m.ring.items
  pub small : m.ring.size < 2 ^ 32
  pub positive : 0 < m.ring.size
  pub log : (rest : List A) × (m.taken ++ rest ≡ m.reserved)
  pub room : length m.reserved < length m.taken + m.ring.size
  pub head_at : m.ring.head ≡ length m.taken % m.ring.size
  pub tail_at : m.ring.tail ≡ length m.reserved % m.ring.size
  pub fits : (j : ℕ) → Fits m (ps j)
  pub unique : (i j t : ℕ) → ticket (ps i) ≡ some t → ticket (ps j) ≡ some t → i ≡ j
  pub filled : (k : ℕ) (s : Slot A) → SlotAt m k s → s.valid ≡ true → Filled m ps k s.item
  pub consumer : FitsConsumer m ps c

module _ {A : Type 0} where
  pub get_elem?-lt : (xs : List A) (i : ℕ) (x : A) → get_elem? xs i ≡ some x → i < length xs
  get_elem?-lt [] i x h = absurd (cc)
  get_elem?-lt (y ∷ xs) zero x h = omega arith
  get_elem?-lt (y ∷ xs) (suc i) x h = omega (arith, get_elem?-lt xs i x h)

  pub get_elem?-append :
      (xs ys : List A) (i : ℕ) (x : A) → get_elem? xs i ≡ some x → get_elem? (xs ++ ys) i ≡ some x
  get_elem?-append [] ys i x h = absurd (cc)
  get_elem?-append (y ∷ xs) ys zero x h = h
  get_elem?-append (y ∷ xs) ys (suc i) x h = get_elem?-append xs ys i x h

  pub get_elem?-append_next :
      (xs ys : List A) (x : A) → get_elem? (xs ++ x ∷ ys) (length xs) ≡ some x
  get_elem?-append_next [] ys x = refl
  get_elem?-append_next (y ∷ xs) ys x = get_elem?-append_next xs ys x

  -- The rest of a list behind a prefix begins with the item at the prefix's length.
  pub prefix_next :
      (xs rest all : List A) (x : A)
      → xs ++ rest ≡ all
      → get_elem? all (length xs) ≡ some x
      → (more : List A) × ((xs ++ x ∷ []) ++ more ≡ all)
  prefix_next [] [] all x e h = absurd (cc)
  prefix_next [] (y ∷ rest) all x e h = (
    rest,
    let same : get_elem? (y ∷ rest) 0 ≡ some x = ap (λ l. get_elem? l 0) e ∙ h in
        let is : x ≡ y = cc in ap (λ z. z ∷ rest) is ∙ e,
  )
  prefix_next (y ∷ xs) rest [] x e h = absurd (cc)
  prefix_next (y ∷ xs) rest (z ∷ all) x e h =
      let (more, f) = prefix_next xs rest all x (cc) h in
      let is : y ≡ z = cc in (more, ap (λ l. y ∷ l) f ∙ ap (λ w. w ∷ all) is)
