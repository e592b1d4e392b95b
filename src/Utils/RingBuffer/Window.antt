-- ===== src/Utils/RingBuffer/Window.antt =====
-- The items of a ring, from an index on and round the end of the storage.
use dumais_lib.Prelude.{
  ℕ, zero, suc, ◌+◌, ◌-◌, ◌^◌, ◌≤◌, ◌<◌, ◌≡◌, ◌≢◌, refl, ap, sym, subst, ◌∙◌, arith, true, some,
  List, [], ◌∷◌, ◌++◌, length, set, get_elem?, ltb, if◌then◌else◌,
}
use native.Mathlib.Decide.{dec_lt}
use native.Mathlib.Nat.{mod-eq_of_lt, mod-eq-sub-mod}
use dumais_lib.Utils.RingBuffer.{Slot, next_index}

-- An index that may have passed the end once.
abbrev pub wrap : ℕ → ℕ → ℕ
wrap size i = if ltb i size then i else i - size

pub next_index-wrap :
    (size i : ℕ) → i < size → size < 2 ^ 32 → next_index size i ≡ wrap size (i + 1)
next_index-wrap size i h small = elim (dec_lt (i + 1) size) [
  | yes below ↦ ground (arith, mod-eq_of_lt below)
  | no above ↦
      let end : i + 1 ≡ size = omega arith in
      ground (arith, mod-eq-sub-mod {n = i + 1} {m = size} (omega arith))
]

pub wrap-lt : (size i d : ℕ) → i < size → d < size → wrap size (i + d) < size
wrap-lt size i d hi hd = ground arith

wrap-zero : (size i : ℕ) → i < size → wrap size (i + 0) ≡ i
wrap-zero size i h = ground arith

wrap-ne : (size i d : ℕ) → i < size → 0 < d → d < size → wrap size (i + d) ≢ i
wrap-ne size i d hi pos hd = ground arith

pub wrap_next :
    (size i d : ℕ)
    → i < size
    → suc d < size
    → wrap size (wrap size (i + 1) + d) ≡ wrap size (i + suc d)
wrap_next size i d hi hd = ground arith

module _ {ℓ} {A : Type ℓ} where
  -- The slots from `i` on are valid, and hold `q`.
  abbrev pub Window : List (Slot A) → ℕ → ℕ → List A → Type ℓ
  Window items size i [] = Unit
  Window items size i (x ∷ q) =
      (get_elem? items i ≡ some (record { item = x; valid = true }))
      × Window items size (wrap size (i + 1)) q

  pub get_elem?-set_ne :
      (xs : List (Slot A)) (i j : ℕ) (v : Slot A)
      → i ≢ j
      → get_elem? (set xs i v) j ≡ get_elem? xs j
  get_elem?-set_ne [] i j v h = refl
  get_elem?-set_ne (x ∷ xs) zero zero v h = absurd (h refl)
  get_elem?-set_ne (x ∷ xs) zero (suc j) v h = refl
  get_elem?-set_ne (x ∷ xs) (suc i) zero v h = refl
  get_elem?-set_ne (x ∷ xs) (suc i) (suc j) v h = get_elem?-set_ne xs i j v (λ e. h (ap suc e))

  pub get_elem?-set_self :
      (xs : List (Slot A)) (i : ℕ) (v : Slot A) → i < length xs → get_elem? (set xs i v) i ≡ some v
  get_elem?-set_self [] i v h = absurd (omega arith)
  get_elem?-set_self (x ∷ xs) zero v h = refl
  get_elem?-set_self (x ∷ xs) (suc i) v h = get_elem?-set_self xs i v (omega arith)

  -- A write at distance `d` from the start of a window of at most `d` slots leaves it alone.
  pub Window-set :
      (items : List (Slot A)) (size i d : ℕ) (q : List A) (v : Slot A)
      → i < size
      → d < size
      → length q ≤ d
      → Window items size i q
      → Window (set items (wrap size (i + d)) v) size i q
  Window-set items size i d [] v hi hd le h = tt
  Window-set items size i d (x ∷ q) v hi hd le (hx, hq) =
      let e : d ≡ suc (d - 1) = omega arith in
      let here =
        get_elem?-set_ne items (wrap size (i + d)) i v (wrap-ne size i d hi (omega arith) hd) in
      let later =
        Window-set items size (wrap size (i + 1)) (d - 1) q v (wrap-lt size i 1 hi (omega arith))
          (omega arith) (omega arith) hq in
      (
        here ∙ hx,
        subst (λ j. Window (set items j v) size (wrap size (i + 1)) q)
            (wrap_next size i (d - 1) hi (omega arith) ∙ ap (λ k. wrap size (i + k)) (sym e)) later,
      )

  -- A write just behind a window lengthens it.
  pub Window-append :
      (items : List (Slot A)) (size i : ℕ) (q : List A) (x : A)
      → i < size
      → length q < size
      → size ≡ length items
      → Window items size i q
      → Window
          (set items (wrap size (i + length q)) (record { item = x; valid = true }))
          size
          i
          (q ++ x ∷ [])
  Window-append items size i [] x hi hd len h =
      let e = wrap-zero size i hi in
      (rw e (get_elem?-set_self items i (record { item = x; valid = true }) (omega arith)), tt)
  Window-append items size i (y ∷ q) x hi hd len (hy, hq) = (
    get_elem?-set_ne items (wrap size (i + suc (length q))) i _
          (wrap-ne size i (suc (length q)) hi (omega arith) hd)
        ∙ hy,
    subst
        (λ j.
          Window (set items j (record { item = x; valid = true })) size (wrap size (i + 1))
            (q ++ x ∷ []))
        (wrap_next size i (length q) hi hd)
        (Window-append items size (wrap size (i + 1)) q x (wrap-lt size i 1 hi (omega arith))
          (omega arith) len hq),
  )
