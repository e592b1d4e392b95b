-- ===== src/Utils/RingBuffer/Producers.antt =====
-- `MPSCRingBuffer` of utils/MPSCRingBuffer.h with producers and a consumer that run at once: a shared
-- access at a time, in any order, each seen by every thread when the next one is made.
pub mod Invariant
pub mod Frame
pub mod Writes
pub mod Moves
pub mod Takes
pub mod Order
use dumais_lib.Prelude.{
  ℕ, ◌≡◌, ◌≢◌, true, false, some, List, [], ◌∷◌, ◌++◌, length, set, get_elem?, ◌==◌, if◌then◌else◌,
}
use dumais_lib.Utils.RingBuffer.{Slot, Ring, empty_ring, next_index}

-- The ring, and what has happened to it: the item of each reservation of a slot, and the items that
-- `get` has returned.
pub record Memory {ℓ} (A : Type ℓ) : Type ℓ where
  pub ring : Ring A
  pub reserved : List A
  pub taken : List A

-- Where a producer stands in `put item`, with the variables that are live there. A producer that has
-- won has the number of its reservation, which is not in the program.
pub data Pc {ℓ} (A : Type ℓ) : Type ℓ where
  idle : Pc A
  loaded : (item : A) → (old_tail new_tail : ℕ) → Pc A  -- before the compare-and-swap
  lost : (item : A) → Pc A  -- start of the loop's body
  reloaded : (item : A) → (old_tail new_tail : ℕ) → Pc A  -- before the test of the loop's body
  won : (item : A) → (old_tail new_tail number : ℕ) → Pc A  -- before the test behind the loop
  accepted : (item : A) → (old_tail number : ℕ) → Pc A
  stored : (item : A) → (old_tail number : ℕ) → Pc A

-- Where the consumer stands in `get`.
pub data Cpc {ℓ} (A : Type ℓ) : Type ℓ where
  waiting : Cpc A
  checked : Cpc A  -- before the read of `valid`
  found : Cpc A
  copied : (item : A) → Cpc A
  cleared : (item : A) → Cpc A

module _ {ℓ} {A : Type ℓ} where
  abbrev pub with_ring : Memory A → Ring A → Memory A
  with_ring m r = record m { ring = r }

  -- A write to a slot.
  abbrev pub write : Memory A → ℕ → Slot A → Memory A
  write m k s = with_ring m (record (m.ring) { items = set m.ring.items k s })

  abbrev pub SlotAt : Memory A → ℕ → Slot A → Type ℓ
  SlotAt m k s = get_elem? m.ring.items k ≡ some s

  abbrev pub reserve : Memory A → ℕ → A → Memory A
  reserve m new_tail x = record m {
    ring = record (m.ring) { tail = new_tail };
    reserved = m.reserved ++ x ∷ [];
  }

  abbrev pub release : Memory A → A → Memory A
  release m x = record m {
    ring = record (m.ring) { head = next_index m.ring.size m.ring.head };
    taken = m.taken ++ x ∷ [];
  }

-- One step of a producer.
pub data Move {ℓ} {A : Type ℓ} (m : Memory A) : Pc A → Memory A → Pc A → Type ℓ where
  load : {x : A} → Move m idle m (loaded x m.ring.tail (next_index m.ring.size m.ring.tail))
  cas_win :
      {x : A} {old new : ℕ}
      → m.ring.tail ≡ old
      → Move m (loaded x old new) (reserve m new x) (won x old new (length m.reserved))
  cas_lose : {x : A} {old new : ℕ} → m.ring.tail ≢ old → Move m (loaded x old new) m (lost x)
  reload : {x : A} → Move m (lost x) m (reloaded x m.ring.tail (next_index m.ring.size m.ring.tail))
  refuse : {x : A} {old new : ℕ} → new ≡ m.ring.head → Move m (reloaded x old new) m idle
  retry :
      {x : A} {old new : ℕ} → new ≢ m.ring.head → Move m (reloaded x old new) m (loaded x old new)
  overflow : {x : A} {old new t : ℕ} → new ≡ m.ring.head → Move m (won x old new t) m idle
  accept :
      {x : A} {old new t : ℕ} → new ≢ m.ring.head → Move m (won x old new t) m (accepted x old t)
  store :
      {x : A} {old t : ℕ} {s : Slot A}
      → SlotAt m old s
      → Move m (accepted x old t) (write m old (record s { item = x })) (stored x old t)
  publish :
      {x : A} {old t : ℕ} {s : Slot A}
      → SlotAt m old s
      → Move m (stored x old t) (write m old (record s { valid = true })) idle

-- A compare-and-swap that wins leaves a slot free behind the new tail.
abbrev pub LeavesRoom {ℓ} : {A : Type ℓ} {m n : Memory A} {p q : Pc A} → Move m p n q → Type 0
LeavesRoom {m} (cas_win {new} _) = new ≢ m.ring.head
LeavesRoom _ = Unit

-- One step of the consumer; a call that returns `false` is back at `waiting`.
pub data Take {ℓ} {A : Type ℓ} (m : Memory A) : Cpc A → Memory A → Cpc A → Type ℓ where
  empty : m.ring.head ≡ m.ring.tail → Take m waiting m waiting
  some_left : m.ring.head ≢ m.ring.tail → Take m waiting m checked
  unready : {s : Slot A} → SlotAt m m.ring.head s → s.valid ≡ false → Take m checked m waiting
  ready : {s : Slot A} → SlotAt m m.ring.head s → s.valid ≡ true → Take m checked m found
  copy : {s : Slot A} → SlotAt m m.ring.head s → Take m found m (copied s.item)
  clear :
      {x : A} {s : Slot A}
      → SlotAt m m.ring.head s
      → Take m (copied x) (write m m.ring.head (record s { valid = false })) (cleared x)
  advance : {x : A} → Take m (cleared x) (release m x) waiting

-- Any number of producers, of which a number names one.
pub record System {ℓ} (A : Type ℓ) : Type ℓ where
  pub mem : Memory A
  pub producers : ℕ → Pc A
  pub consumer : Cpc A

abbrev pub update {ℓ} : {A : Type ℓ} → (ℕ → A) → ℕ → A → ℕ → A
update f i a j = if i == j then a else f j

pub data Step {ℓ} {A : Type ℓ} (s : System A) : System A → Type ℓ where
  produce :
      (i : ℕ) {m : Memory A} {p : Pc A}
      → Move s.mem (s.producers i) m p
      → Step s (record s { mem = m; producers = update s.producers i p })
  consume :
      {m : Memory A} {c : Cpc A}
      → Take s.mem s.consumer m c
      → Step s (record s { mem = m; consumer = c })

-- The constructor, and producers that have not started.
unfoldable pub start_system {ℓ} : {A : Type ℓ} → A → ℕ → System A
unfolding empty_ring
start_system blank size = record {
  mem = record { ring = empty_ring blank size; reserved = []; taken = [] };
  producers = λ _. idle;
  consumer = waiting;
}

pub data Reach {ℓ} {A : Type ℓ} (s : System A) : System A → Type ℓ where
  start : Reach s s
  later : {t u : System A} → Reach s t → Step t u → Reach s u

-- Every compare-and-swap that has won left a slot free.
unfoldable pub HasRoom {ℓ} : {A : Type ℓ} {s t : System A} → Reach s t → Type 0
HasRoom start = Unit
HasRoom (later r (produce i mv)) = HasRoom r × LeavesRoom mv
HasRoom (later r (consume tk)) = HasRoom r
