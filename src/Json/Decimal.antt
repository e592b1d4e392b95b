-- ===== src/Json/Decimal.antt =====
-- `std::stringstream << n`, with which json/Value.cpp prints numbers and json/Object.cpp makes keys.
use dumais_lib.Prelude.{
  ℕ, zero, suc, ◌+◌, ◌-◌, ◌*◌, ◌/◌, ◌%◌, ◌<◌, ◌≡◌, refl, arith, [], ◌∷◌, ◌++◌, Text, ltb,
  if◌then◌else◌, Bool-cases, inl, inr,
}

-- The digits, the lowest last; the fuel is a bound on the number.
unfoldable pub digits_below : (fuel : ℕ) → ℕ → Text
digits_below zero n = []
digits_below (suc f) n =
    let rest = digits_below f (n / 10) in
    if ltb n 10 then (48 + n) ∷ [] else rest ++ (48 + n % 10) ∷ []

unfoldable pub decimal : ℕ → Text
unfolding digits_below
decimal n = digits_below (suc n) n

-- The number that digits stand for, behind digits that stand for `n`.
unfoldable pub number_from : ℕ → Text → ℕ
number_from n [] = n
number_from n (c ∷ s) = number_from (n * 10 + (c - 48)) s

number_from-append : (n : ℕ) (s t : Text) → number_from n (s ++ t) ≡ number_from (number_from n s) t
unfolding number_from
number_from-append n [] t = refl
number_from-append n (c ∷ s) t = number_from-append (n * 10 + (c - 48)) s t

number_from-digits_below : (f n : ℕ) → n < f → number_from 0 (digits_below f n) ≡ n
unfolding digits_below number_from
number_from-digits_below zero n h = absurd (omega arith)
number_from-digits_below (suc f) n h = elim (Bool-cases (ltb n 10)) [
  | inl small ↦ rw small (ground arith)
  | inr large ↦
      rw
        (
          large,
          number_from-append 0 (digits_below f (n / 10)) ((48 + n % 10) ∷ []),
          number_from-digits_below f (n / 10) (ground arith),
        )
        (omega arith)
]

-- The digits of a number stand for it.
pub number_from-decimal : (n : ℕ) → number_from 0 (decimal n) ≡ n
unfolding decimal
number_from-decimal n = number_from-digits_below (suc n) n (omega arith)
