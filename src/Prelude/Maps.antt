-- ===== src/Prelude/Maps.antt =====
-- A `std::map` from numbers, as a list of its pairs. No key of a map that operations make stands in it
-- twice.
use dumais_lib.Prelude.{
  ℕ, suc, ◌≡◌, refl, ap, arith, true, Bool-cases, inl, inr, Option, none, some, List, [], ◌∷◌,
  length, ◌==◌, if◌then◌else◌,
}

abbrev pub Map {ℓ} : Type ℓ → Type ℓ
Map A = List (ℕ × A)

module _ {ℓ} {A : Type ℓ} where
  unfoldable pub lookup : ℕ → Map A → Option A
  lookup k [] = none
  lookup k ((j, a) ∷ m) = if j == k then some a else lookup k m

  unfoldable pub insert : ℕ → A → Map A → Map A
  insert k a [] = (k, a) ∷ []
  insert k a ((j, b) ∷ m) = if j == k then (j, a) ∷ m else (j, b) ∷ insert k a m

  unfoldable pub erase : ℕ → Map A → Map A
  erase k [] = []
  erase k ((j, a) ∷ m) = if j == k then m else (j, a) ∷ erase k m

  pub length-insert_new :
      (k : ℕ) (a : A) (m : Map A) → lookup k m ≡ none → length (insert k a m) ≡ suc (length m)
  unfolding lookup insert
  length-insert_new k a [] h = refl
  length-insert_new k a ((j, b) ∷ m) h = elim (Bool-cases (j == k)) [
    | inl e ↦ absurd (let f : some b ≡ none = rw e at h in cc)
    | inr e ↦ rw e (ap suc (length-insert_new k a m (rw e at h)))
  ]

  pub lookup-insert_self : (k : ℕ) (a : A) (m : Map A) → lookup k (insert k a m) ≡ some a
  unfolding lookup insert
  lookup-insert_self k a [] = let e : (k == k) ≡ true = ground arith in rw e refl
  lookup-insert_self k a ((j, b) ∷ m) = elim (Bool-cases (j == k)) [
    | inl e ↦ rw (e, lookup, e) refl
    | inr e ↦ rw (e, lookup, e) (lookup-insert_self k a m)
  ]
