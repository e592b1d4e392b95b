-- ===== src/Utils/RingBuffer.antt =====
-- `MPSCRingBuffer` of utils/MPSCRingBuffer.h, as one thread runs it.
pub mod Window
pub mod Refine
pub mod Producers
use dumais_lib.Prelude.{
  ℕ, ◌+◌, ◌%◌, ◌^◌, Bool, true, false, Option, none, some, List, set, get_elem?, replicate, ◌==◌,
  if◌then◌else◌,
}

-- `MPSCRingBufferItem<T>`.
pub record Slot {ℓ} (A : Type ℓ) : Type ℓ where
  pub item : A
  pub valid : Bool

pub record Ring {ℓ} (A : Type ℓ) : Type ℓ where
  pub items : List (Slot A)
  pub head : ℕ
  pub tail : ℕ
  pub size : ℕ

-- `(index+1)%this->size` on `uint32_t`.
abbrev pub next_index : ℕ → ℕ → ℕ
next_index size i = (i + 1) % 2 ^ 32 % size

module _ {ℓ} {A : Type ℓ} where
  -- The constructor; `blank` is the item that `new` makes.
  unfoldable pub empty_ring : A → ℕ → Ring A
  empty_ring blank size = record {
    items = replicate size (record { item = blank; valid = false });
    head = 0;
    tail = 0;
    size = size;
  }

  -- `put` with no other producer between the read of the tail and the compare-and-swap: the tail has
  -- moved before the test for an overflow.
  unfoldable pub put : Ring A → A → Bool × Ring A
  put r x =
      let old = r.tail in
      let moved = record r { tail = next_index r.size old } in
      if next_index r.size old == r.head
      then (false, moved)
      else (true, record moved { items = set r.items old (record { item = x; valid = true }) })

  -- A slot that is valid is emptied.
  unfoldable pub take_slot : Ring A → Option (Slot A) → Option A × Ring A
  take_slot r none = (none, r)
  take_slot r (some s) =
      if s.valid
      then (
        some s.item,
        record r {
          items = set r.items r.head (record s { valid = false });
          head = next_index r.size r.head;
        },
      )
      else (none, r)

  -- `get`; `none` is the result `false`.
  unfoldable pub get : Ring A → Option A × Ring A
  unfolding take_slot
  get r = if r.head == r.tail then (none, r) else take_slot r (get_elem? r.items r.head)
