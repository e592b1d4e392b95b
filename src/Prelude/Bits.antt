-- ===== src/Prelude/Bits.antt =====
-- `|` and `^` of machine words, by the lowest digit.
use Prim.Native.Nat.{
  ℕ, zero, suc, ◌+◌, ◌*◌, ◌/◌, ◌%◌, ◌^◌, ◌≤◌, ◌<◌, max, digits, bitwise, differ, bit_or, bit_xor,
  bit_or-bitwise, bit_xor-bitwise,
}
use mathlib.Core.Path.{◌≡◌, refl, ap, ◌∙◌}
use native.Mathlib.Nat.{pow-suc}
use native.Mathlib.Omega.{arith}

-- The count of digits does not matter, as long as it is no less than the first number.
module _ (rest : ℕ → ℕ) (digit : ℕ → ℕ → ℕ) where
  digits-count :
      (count count' : ℕ) (a b : ℕ)
      → (a ≤ count) × (a ≤ count')
      → digits rest digit count a b ≡ digits rest digit count' a b
  digits-count zero zero zero b h = refl
  digits-count zero (suc m) zero b h = refl
  digits-count (suc n) zero zero b h = refl
  digits-count (suc n) (suc m) zero b h = refl
  digits-count zero m (suc a) b h = absurd (omega arith)
  digits-count (suc n) zero (suc a) b h = absurd (omega arith)
  digits-count (suc n) (suc m) (suc a) b h =
      rw (digits-count n m (suc a / 2) (b / 2) (omega arith, omega arith))

  lowest_digit :
      (a b : ℕ)
      → bitwise rest digit (suc a) b
        ≡ bitwise rest digit (suc a / 2) (b / 2) * 2 + digit (suc a % 2) (b % 2)
  lowest_digit a b = rw (digits-count a (suc a / 2) (suc a / 2) (b / 2) (omega arith, omega arith))

or_digit : (a b : ℕ) → bit_or a b ≡ bit_or (a / 2) (b / 2) * 2 + max (a % 2) (b % 2)
or_digit zero b = simp bit_or-bitwise (omega arith)
or_digit (suc a) b = simp bit_or-bitwise (lowest_digit (λ c. c) max a b)

xor_digit : (a b : ℕ) → bit_xor a b ≡ bit_xor (a / 2) (b / 2) * 2 + differ (a % 2) (b % 2)
xor_digit zero b = simp bit_xor-bitwise (omega arith)
xor_digit (suc a) b = simp bit_xor-bitwise (lowest_digit (λ c. c) differ a b)

-- `differ` on two digits undoes itself.
differ_twice : (a b : ℕ) → a < 2 → b < 2 → (differ (differ a b) b ≡ a) × (differ a b < 2)
differ_twice zero zero ha hb = (refl, omega arith)
differ_twice zero (suc zero) ha hb = (refl, omega arith)
differ_twice (suc zero) zero ha hb = (refl, omega arith)
differ_twice (suc zero) (suc zero) ha hb = (refl, omega arith)
differ_twice zero (suc (suc b)) ha hb = absurd (omega arith)
differ_twice (suc zero) (suc (suc b)) ha hb = absurd (omega arith)
differ_twice (suc (suc a)) b ha hb = absurd (omega arith)

-- An upper bound on the number of digits serves for the inductions below.
xor_twice_below : (k a b : ℕ) → a < 2 ^ k → b < 2 ^ k → bit_xor (bit_xor a b) b ≡ a
xor_twice_below zero a b ha hb =
    let a0 : a ≡ 0 = omega arith in let b0 : b ≡ 0 = omega arith in rw (a0, b0)
xor_twice_below (suc k) a b ha hb =
    let (back, small) = differ_twice (a % 2) (b % 2) (omega arith) (omega arith) in
    let high : bit_xor a b / 2 ≡ bit_xor (a / 2) (b / 2) = omega (arith, xor_digit a b, small) in
    let low : bit_xor a b % 2 ≡ differ (a % 2) (b % 2) = omega (arith, xor_digit a b, small) in
    let half : a / 2 < 2 ^ k = omega (arith, pow-suc 2 k) in
    let half' : b / 2 < 2 ^ k = omega (arith, pow-suc 2 k) in
    xor_digit (bit_xor a b) b
    ∙ rw (high, low, xor_twice_below k (a / 2) (b / 2) half half', back) (omega arith)

-- Unmasking a masked byte gives the byte.
pub xor_twice : (a b : ℕ) → a < 256 → b < 256 → bit_xor (bit_xor a b) b ≡ a
xor_twice a b = xor_twice_below 8 a b

or-zero_below : (k a : ℕ) → a ≤ k → bit_or a 0 ≡ a
or-zero_below zero a h = let a0 : a ≡ 0 = omega arith in rw a0
or-zero_below (suc k) a h = omega (arith, or_digit a 0, or-zero_below k (a / 2) (omega arith))

pub or-zero : (a : ℕ) → bit_or a 0 ≡ a
or-zero a = or-zero_below a a (omega arith)

or_digit_even : (a b : ℕ) → bit_or (2 * a) b ≡ bit_or a (b / 2) * 2 + b % 2
or_digit_even a b =
    let high : 2 * a / 2 ≡ a = omega arith in
    let low : 2 * a % 2 ≡ 0 = omega arith in or_digit (2 * a) b ∙ rw (high, low) (omega arith)

-- `(a << k) | b` is a sum when `b` fits `k` bits.
pub or_shifted : (k a b : ℕ) → b < 2 ^ k → bit_or (a * 2 ^ k) b ≡ a * 2 ^ k + b
or_shifted zero a b h =
    let b0 : b ≡ 0 = omega arith in
    let a1 : a * 1 ≡ a = omega arith in rw (b0, a1, or-zero a) (omega arith)
or_shifted (suc k) a b h =
    let e : a * 2 ^ suc k ≡ 2 * (a * 2 ^ k) = omega (arith, ap (λ (t : ℕ). a * t) (pow-suc 2 k)) in
    rw e (
      omega
        (arith, or_digit_even (a * 2 ^ k) b, or_shifted k a (b / 2) (omega (arith, pow-suc 2 k))))

-- The result has the digits of both.
pub le-or : (k a b : ℕ) → a < 2 ^ k → b < 2 ^ k → (b ≤ bit_or a b) × (bit_or a b < 2 ^ k)
le-or zero a b ha hb =
    let a0 : a ≡ 0 = omega arith in
    let b0 : b ≡ 0 = omega arith in rw (a0, b0) (omega arith, omega arith)
le-or (suc k) a b ha hb =
    let half : a / 2 < 2 ^ k = omega (arith, pow-suc 2 k) in
    let half' : b / 2 < 2 ^ k = omega (arith, pow-suc 2 k) in
    let (low, high) = le-or k (a / 2) (b / 2) half half' in
    (omega (arith, or_digit a b), omega (arith, or_digit a b, pow-suc 2 k))
