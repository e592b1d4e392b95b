-- ===== src/Utils/Base64/Decode.antt =====
-- The decoding of RFC 4648, against utils/Base64.cpp.
use dumais_lib.Prelude.{
  ℕ, ◌+◌, ◌-◌, ◌*◌, ◌/◌, ◌%◌, ◌^◌, ◌<◌, ◌≡◌, ◌≢◌, refl, ap, ap₂, sym, ◌∙◌, arith, [], ◌∷◌, Text,
  codes, get_or, ltb, ◌==◌, if◌then◌else◌, Bool, true, false, not, ==_iff, all_below-at,
}
use native.Mathlib.Nat.{mod-lt}
use dumais_lib.Utils.Base64.{AreBytes, digits, big_endian, digit, encode}

-- The value of a digit.
unfoldable pub value_of_digit : ℕ → ℕ
value_of_digit c =
    if c == b'+'
    then 62
    else if c == b'/'
    then 63
    else if ltb c 58
    then c + 4
    else if ltb c 91
    then c - 65
    else c - 71

-- Four digits stand for three bytes, fewer with `=` at the end.
unfoldable pub decode : Text → Text
unfolding value_of_digit
decode (a ∷ b ∷ c ∷ d ∷ s) =
    let n =
      value_of_digit a * 2 ^ 18
      + value_of_digit b * 2 ^ 12
      + value_of_digit c * 2 ^ 6
      + value_of_digit d in
    let m = value_of_digit a * 2 ^ 6 + value_of_digit b in
    let k = value_of_digit a * 2 ^ 12 + value_of_digit b * 2 ^ 6 + value_of_digit c in
    let rest = decode s in
    if c == b'='
    then m / 2 ^ 4 ∷ []
    else if d == b'='
    then k / 2 ^ 10 ∷ k / 2 ^ 2 % 256 ∷ []
    else n / 2 ^ 16 ∷ n / 2 ^ 8 % 256 ∷ n % 256 ∷ rest
decode s = []

known_test : encode (0, 0, 0) (codes "Man is d") ≡ codes "TWFuIGlzIGQ="
unfolding encode
known_test = refl

value_of_digit-at : (n : ℕ) → n < 64 → value_of_digit (get_or digits n 0) ≡ n
value_of_digit-at n h = (==_iff _ _).0 (
    all_below-at 64 n (λ i. value_of_digit (get_or digits i 0) == i) (unfold value_of_digit in refl)
      h)

not_padding : (n : ℕ) → n < 64 → (get_or digits n 0 == b'=') ≡ false
not_padding n h =
    not_true (get_or digits n 0 == b'=')
      (all_below-at 64 n (λ i. not (get_or digits i 0 == b'=')) refl h)
  where
    not_true : (b : Bool) → not b ≡ true → b ≡ false
    not_true true h = sym h
    not_true false h = refl

-- The value of the digit that the code takes from a word.
value-digit : (tmp shift : ℕ) → value_of_digit (digit tmp shift) ≡ tmp / 2 ^ shift % 64
value-digit tmp shift =
    value_of_digit-at (tmp / 2 ^ shift % 64) (mod-lt (tmp / 2 ^ shift) (omega arith))

digit-not_padding : (tmp shift : ℕ) → (digit tmp shift == b'=') ≡ false
digit-not_padding tmp shift =
    not_padding (tmp / 2 ^ shift % 64) (mod-lt (tmp / 2 ^ shift) (omega arith))

-- The four values put together are the first three bytes of the word.
four_values :
    (a b c d : ℕ)
    → a < 256
    → b < 256
    → c < 256
    → d < 256
    → let tmp = big_endian a b c d in
      tmp / 2 ^ 26 % 64 * 2 ^ 18
        + tmp / 2 ^ 20 % 64 * 2 ^ 12
        + tmp / 2 ^ 14 % 64 * 2 ^ 6
        + tmp / 2 ^ 8 % 64
      ≡ a * 2 ^ 16 + b * 2 ^ 8 + c
four_values a b c d ha hb hc hd =
    let tmp = big_endian a b c d in
    let w0 : tmp / 2 ^ 8 ≡ a * 2 ^ 16 + b * 2 ^ 8 + c = omega arith in
    let w1 : tmp / 2 ^ 14 ≡ a * 2 ^ 10 + b * 2 ^ 2 + c / 2 ^ 6 = omega arith in
    let w2 : tmp / 2 ^ 20 ≡ a * 2 ^ 4 + b / 2 ^ 4 = omega arith in
    let w3 : tmp / 2 ^ 26 ≡ a / 2 ^ 2 = omega arith in
    let v0 : tmp / 2 ^ 8 % 64 ≡ c % 64 = omega arith in
    let v1 : tmp / 2 ^ 14 % 64 ≡ b % 16 * 4 + c / 64 = omega (arith, w1) in
    let v2 : tmp / 2 ^ 20 % 64 ≡ a % 4 * 16 + b / 16 = omega (arith, w2) in
    let v3 : tmp / 2 ^ 26 % 64 ≡ a / 4 = omega (arith, w3) in rw (v0, v1, v2, v3) (omega arith)

-- Four digits of a word are decoded to its first three bytes.
decode-word :
    (a b c d : ℕ) (s : Text)
    → a < 256
    → b < 256
    → c < 256
    → d < 256
    → let tmp = big_endian a b c d in
      decode (digit tmp 26 ∷ digit tmp 20 ∷ digit tmp 14 ∷ digit tmp 8 ∷ s) ≡ a ∷ b ∷ c ∷ decode s
unfolding decode
decode-word a b c d s ha hb hc hd =
    let tmp = big_endian a b c d in
    let n =
      tmp / 2 ^ 26 % 64 * 2 ^ 18
      + tmp / 2 ^ 20 % 64 * 2 ^ 12
      + tmp / 2 ^ 14 % 64 * 2 ^ 6
      + tmp / 2 ^ 8 % 64 in
    let e : n ≡ a * 2 ^ 16 + b * 2 ^ 8 + c = four_values a b c d ha hb hc hd in
    rw
      (
        digit-not_padding tmp 14,
        digit-not_padding tmp 8,
        value-digit tmp 26,
        value-digit tmp 20,
        value-digit tmp 14,
        value-digit tmp 8,
        e,
      )
      (first_three a b c s ha hb hc)
  where
    first_three :
        (a b c : ℕ) (s : Text)
        → a < 256
        → b < 256
        → c < 256
        → (a * 2 ^ 16 + b * 2 ^ 8 + c) / 2 ^ 16
            ∷ (a * 2 ^ 16 + b * 2 ^ 8 + c) / 2 ^ 8 % 256
            ∷ (a * 2 ^ 16 + b * 2 ^ 8 + c) % 256
            ∷ decode s
          ≡ a ∷ b ∷ c ∷ decode s
    first_three a b c s ha hb hc =
        let n = a * 2 ^ 16 + b * 2 ^ 8 + c in
        let x : n / 2 ^ 16 ≡ a = omega arith in
        let y : n / 2 ^ 8 % 256 ≡ b = omega arith in
        let z : n % 256 ≡ c = omega arith in rw (x, y, z)

decode-two :
    (a b x y : ℕ)
    → a < 256
    → b < 256
    → x < 256
    → y < 256
    → let tmp = big_endian a b x y in
      decode (digit tmp 26 ∷ digit tmp 20 ∷ digit tmp 14 ∷ b'=' ∷ []) ≡ a ∷ b ∷ []
unfolding decode
decode-two a b x y ha hb hx hy =
    let tmp = big_endian a b x y in
    let w1 : tmp / 2 ^ 14 ≡ a * 2 ^ 10 + b * 2 ^ 2 + x / 2 ^ 6 = omega arith in
    let w2 : tmp / 2 ^ 20 ≡ a * 2 ^ 4 + b / 2 ^ 4 = omega arith in
    let w3 : tmp / 2 ^ 26 ≡ a / 2 ^ 2 = omega arith in
    let v1 : tmp / 2 ^ 14 % 64 ≡ b % 16 * 4 + x / 64 = omega (arith, w1) in
    let v2 : tmp / 2 ^ 20 % 64 ≡ a % 4 * 16 + b / 16 = omega (arith, w2) in
    let v3 : tmp / 2 ^ 26 % 64 ≡ a / 4 = omega (arith, w3) in
    rw
      (
        digit-not_padding tmp 14,
        value-digit tmp 26,
        value-digit tmp 20,
        value-digit tmp 14,
        v1,
        v2,
        v3,
      )
      (ap₂ (λ c d. c ∷ d ∷ []) (omega arith) (omega arith))

decode-one :
    (a x y z : ℕ)
    → a < 256
    → x < 256
    → y < 256
    → z < 256
    → let tmp = big_endian a x y z in decode (digit tmp 26 ∷ digit tmp 20 ∷ codes "==") ≡ a ∷ []
unfolding decode
decode-one a x y z ha hx hy hz =
    let tmp = big_endian a x y z in
    let w2 : tmp / 2 ^ 20 ≡ a * 2 ^ 4 + x / 2 ^ 4 = omega arith in
    let w3 : tmp / 2 ^ 26 ≡ a / 2 ^ 2 = omega arith in
    let v2 : tmp / 2 ^ 20 % 64 ≡ a % 4 * 16 + x / 16 = omega (arith, w2) in
    let v3 : tmp / 2 ^ 26 % 64 ≡ a / 4 = omega (arith, w3) in
    rw (value-digit tmp 26, value-digit tmp 20, v2, v3) (ap (λ c. c ∷ []) (omega arith))

-- Decoding what `encode` makes of bytes gives them back, whatever three bytes stand behind them
-- in memory.
pub decode-encode :
    (x y z : ℕ) (s : Text)
    → x < 256
    → y < 256
    → z < 256
    → AreBytes s
    → decode (encode (x, y, z) s) ≡ s
unfolding encode AreBytes
decode-encode x y z [] hx hy hz h = unfold decode in refl
decode-encode x y z (a ∷ []) hx hy hz (ha, h) = decode-one a x y z ha hx hy hz
decode-encode x y z (a ∷ b ∷ []) hx hy hz (ha, (hb, h)) = decode-two a b x y ha hb hx hy
decode-encode x y z (a ∷ b ∷ c ∷ []) hx hy hz (ha, (hb, (hc, h))) =
    decode-word a b c x [] ha hb hc hx ∙ (unfold decode in refl)
decode-encode x y z (a ∷ b ∷ c ∷ d ∷ s) hx hy hz (ha, (hb, (hc, (hd, h)))) =
    decode-word a b c d (encode (x, y, z) (d ∷ s)) ha hb hc hd
    ∙ ap (λ t. a ∷ b ∷ c ∷ t) (decode-encode x y z (d ∷ s) hx hy hz (hd, h))

-- The text depends on what stands behind the data: 20 bytes, the size of a SHA-1 digest, leave two
-- bytes for the last round, whose third digit takes two bits from there.
behind_test : encode (0, 0, 0) (codes "ab") ≢ encode (255, 0, 0) (codes "ab")
unfolding encode
behind_test e = absurd (omega (arith, ap (λ t. get_or t 2 0) e))
