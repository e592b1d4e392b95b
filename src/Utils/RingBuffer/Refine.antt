-- ===== src/Utils/RingBuffer/Refine.antt =====
-- A ring against the queue of the items that it holds.
use dumais_lib.Prelude.{
  ℕ, zero, suc, ◌+◌, ◌-◌, ◌^◌, ◌<◌, ◌≡◌, refl, ap, sym, subst, ◌∙◌, arith, true, false, Bool-cases,
  inl, inr, none, some, List, [], ◌∷◌, ◌++◌, length, length-append, length-set, set, replicate,
  ◌==◌,
}
use dumais_lib.Utils.RingBuffer.{Slot, Ring, next_index, empty_ring, put, get}
use dumais_lib.Utils.RingBuffer.Window.{
  wrap, next_index-wrap, wrap-lt, wrap_next, Window, Window-set, Window-append,
}

-- The ring holds the items of `q`, oldest first, and one slot at least is free.
pub record Holds {ℓ} {A : Type ℓ} (r : Ring A) (q : List A) : Type ℓ where
  pub storage : r.size ≡ length r.items
  pub small : r.size < 2 ^ 32
  pub head_in : r.head < r.size
  pub room : length q < r.size
  pub tail_at : r.tail ≡ wrap r.size (r.head + length q)
  pub window : Window r.items r.size r.head q

module _ {ℓ} {A : Type ℓ} where
  length-replicate : (n : ℕ) (a : Slot A) → length (replicate n a) ≡ n
  length-replicate zero a = refl
  length-replicate (suc n) a = ap suc (length-replicate n a)

  -- A new ring of a size that `uint32_t` holds is an empty queue.
  pub empty_ring-Holds :
      (blank : A) (size : ℕ) → 0 < size → size < 2 ^ 32 → Holds (empty_ring blank size) []
  unfolding empty_ring
  empty_ring-Holds blank size pos small = record {
    storage = sym (length-replicate size _);
    small = small;
    head_in = pos;
    room = pos;
    tail_at = ground arith;
    window = tt;
  }

  tail_next :
      (r : Ring A) (q : List A) → Holds r q → next_index r.size r.tail ≡ wrap r.size (r.tail + 1)
  tail_next r q h =
      next_index-wrap r.size r.tail (ground (arith, h.tail_at, h.head_in, h.room)) h.small

  next_tail :
      (r : Ring A) (q : List A)
      → Holds r q
      → suc (length q) < r.size
      → next_index r.size r.tail ≡ wrap r.size (r.head + suc (length q))
  next_tail r q h two = ground (arith, tail_next r q h, h.tail_at, h.head_in)

  not_full :
      (r : Ring A) (q : List A)
      → Holds r q
      → suc (length q) < r.size
      → (next_index r.size r.tail == r.head) ≡ false
  not_full r q h two = ground (arith, next_tail r q h two, h.head_in)

  is_full :
      (r : Ring A) (q : List A)
      → Holds r q
      → suc (length q) ≡ r.size
      → (next_index r.size r.tail == r.head) ≡ true
  is_full r q h full = ground (arith, tail_next r q h, h.tail_at, h.head_in)

  not_empty : (r : Ring A) (x : A) (q : List A) → Holds r (x ∷ q) → (r.head == r.tail) ≡ false
  not_empty r x q h = ground (arith, h.tail_at, h.head_in, h.room)

  next_head :
      (r : Ring A) (x : A) (q : List A)
      → Holds r (x ∷ q)
      → next_index r.size r.head ≡ wrap r.size (r.head + 1)
  next_head r x q h = next_index-wrap r.size r.head h.head_in h.small

  -- The head is the last index before the start of the window that is left.
  head_behind :
      (r : Ring A) (x : A) (q : List A)
      → Holds r (x ∷ q)
      → wrap r.size (wrap r.size (r.head + 1) + (r.size - 1)) ≡ r.head
  head_behind r x q h = ground (arith, h.head_in, h.room)

  emptied :
      (r : Ring A) (x : A) (q : List A)
      → Holds r (x ∷ q)
      → Window
          (set r.items r.head (record { item = x; valid = false }))
          r.size
          (wrap r.size (r.head + 1))
          q
  emptied r x q h =
      subst
        (λ i.
          Window (set r.items i (record { item = x; valid = false })) r.size
            (wrap r.size (r.head + 1)) q)
        (head_behind r x q h)
        (Window-set r.items r.size (wrap r.size (r.head + 1)) (r.size - 1) q
          (record { item = x; valid = false })
          (wrap-lt r.size r.head 1 h.head_in (omega (arith, h.room))) (omega (arith, h.room))
          (omega (arith, h.room)) h.window.1)

  -- While two slots are free, `put` on a ring that holds a queue succeeds and appends its item
  -- to the queue.
  pub put_room :
      (r : Ring A) (q : List A) (x : A)
      → Holds r q
      → suc (length q) < r.size
      → ((put r x).0 ≡ true) × Holds (put r x).1 (q ++ x ∷ [])
  unfolding put
  put_room r q x h two = rw (not_full r q h two) (
    refl,
    record {
      storage = h.storage ∙ sym (length-set r.items r.tail _);
      small = h.small;
      head_in = h.head_in;
      room = omega (arith, length-append q (x ∷ []));
      tail_at =
          next_tail r q h two
          ∙ ap (λ n. wrap r.size (r.head + n)) (omega (arith, length-append q (x ∷ [])));
      window =
          subst
            (λ t.
              Window (set r.items t (record { item = x; valid = true })) r.size r.head
                (q ++ x ∷ []))
            (sym h.tail_at)
            (Window-append r.items r.size r.head q x h.head_in h.room h.storage h.window);
    },
  )

  -- At the last free slot `put` on a ring that holds a queue reports an overflow, and the ring
  -- is then an empty queue: what it held is lost.
  pub put_overflow :
      (r : Ring A) (q : List A) (x : A)
      → Holds r q
      → suc (length q) ≡ r.size
      → ((put r x).0 ≡ false) × Holds (put r x).1 []
  unfolding put
  put_overflow r q x h full = rw (is_full r q h full) (
    refl,
    record {
      storage = h.storage;
      small = h.small;
      head_in = h.head_in;
      room = omega (arith, h.head_in);
      tail_at = ground (arith, tail_next r q h, h.tail_at, h.head_in);
      window = tt;
    },
  )

  -- `get` on a ring that holds a queue takes the oldest item.
  pub get-cons :
      (r : Ring A) (x : A) (q : List A) → Holds r (x ∷ q) → ((get r).0 ≡ some x) × Holds (get r).1 q
  unfolding get
  get-cons r x q h =
      rw (not_empty r x q h, h.window.0)
        (
          refl,
          record {
            storage = h.storage ∙ sym (length-set r.items r.head _);
            small = h.small;
            head_in = omega (
              arith,
              next_index-wrap r.size r.head h.head_in h.small,
              wrap-lt r.size r.head 1 h.head_in (omega (arith, h.room)),
            );
            room = omega (arith, h.room);
            tail_at =
                h.tail_at
                ∙ sym (wrap_next r.size r.head (length q) h.head_in h.room)
                ∙ ap (λ n. wrap r.size (n + length q)) (sym (next_head r x q h));
            window =
                subst
                  (λ n. Window (set r.items r.head (record { item = x; valid = false })) r.size n q)
                  (sym (next_head r x q h)) (emptied r x q h);
          },
        )

  -- `get` on an empty queue changes nothing.
  pub get-nil : (r : Ring A) → Holds r [] → get r ≡ (none, r)
  unfolding get
  get-nil r h = ground (arith, h.tail_at, h.head_in)

  -- Whether `put` succeeds or overflows, the ring holds a queue.
  pub put-Holds :
      (r : Ring A) (q : List A) (x : A) → Holds r q → (q' : List A) × Holds (put r x).1 q'
  put-Holds r q x h = elim (Bool-cases (suc (length q) == r.size)) [
    | inl e ↦ ([], (put_overflow r q x h (ground arith)).1)
    | inr e ↦ (q ++ x ∷ [], (put_room r q x h (ground (arith, h.room))).1)
  ]
