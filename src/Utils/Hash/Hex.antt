-- ===== src/Utils/Hash/Hex.antt =====
-- What `toHex` of utils/Hash.cpp makes can be read back.
use dumais_lib.Prelude.{
  ℕ, ◌+◌, ◌-◌, ◌*◌, ◌/◌, ◌%◌, ◌<◌, ◌≡◌, refl, ap₂, ◌∙◌, arith, [], ◌∷◌, Text, codes, get_or, ltb,
  if◌then◌else◌, ◌==◌, ==_iff, all_below-at,
}
use dumais_lib.Utils.Hash.{hex_digits, to_hex}
use dumais_lib.Utils.Base64.{AreBytes}

digits_test : to_hex (0 ∷ 255 ∷ 0x3c ∷ []) ≡ codes "00ff3c"
unfolding to_hex
digits_test = refl

-- The value of a hexadecimal digit.
unfoldable pub digit_value : ℕ → ℕ
digit_value c = if ltb c 58 then c - 48 else c - 87

unfoldable pub from_hex : Text → Text
unfolding digit_value
from_hex (a ∷ b ∷ s) = (digit_value a * 16 + digit_value b) ∷ from_hex s
from_hex s = []

digit_cases : (n : ℕ) → n < 16 → digit_value (get_or hex_digits n 0) ≡ n
digit_cases n h = (==_iff _ _).0 (
    all_below-at 16 n (λ i. digit_value (get_or hex_digits i 0) == i) (unfold digit_value in refl)
      h)

-- The bytes of a digest can be read back from its hexadecimal digits.
pub from_hex-to_hex : (s : Text) → AreBytes s → from_hex (to_hex s) ≡ s
unfolding from_hex to_hex AreBytes
from_hex-to_hex [] h = refl
from_hex-to_hex (c ∷ s) (hc, hs) =
    ap₂ (λ x t. x ∷ t)
      (ap₂ (λ x y. x * 16 + y) (digit_cases (c / 16) (omega arith))
          (digit_cases (c % 16) (omega arith))
        ∙ omega arith)
      (from_hex-to_hex s hs)
