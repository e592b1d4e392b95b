-- ===== src/Utils/Base64.antt =====
-- `Base64::encode` of utils/Base64.cpp.
pub mod Decode
use dumais_lib.Prelude.{
  ℕ, zero, suc, ◌+◌, ◌*◌, ◌/◌, ◌%◌, ◌^◌, ◌<◌, [], ◌∷◌, ◌++◌, Text, codes, get_or,
}

unfoldable pub AreBytes : Text → Type 0
AreBytes [] = Unit {0}
AreBytes (c ∷ s) = (c < 256) × AreBytes s

-- `Base64::digits`.
abbrev pub digits : Text
digits = codes "ABCDEFGHIJKLMNOPQRSTUVWXYZabcdefghijklmnopqrstuvwxyz0123456789+/"

-- The number that `MOVEBE` makes of the four bytes at an address.
abbrev pub big_endian : ℕ → ℕ → ℕ → ℕ → ℕ
big_endian a b c d = a * 2 ^ 24 + b * 2 ^ 16 + c * 2 ^ 8 + d

-- `digits[(tmp>>shift)&0x3F]`.
abbrev pub digit : ℕ → ℕ → ℕ
digit tmp shift = get_or digits (tmp / 2 ^ shift % 64) 0

-- The loop. Each round reads four bytes, also those that stand behind the data in memory: `behind` are
-- the three bytes there.
unfoldable pub encode : (behind : ℕ × ℕ × ℕ) → Text → Text
encode behind [] = []
encode (x, y, z) (a ∷ []) = let tmp = big_endian a x y z in digit tmp 26 ∷ digit tmp 20 ∷ codes "=="
encode (x, y, z) (a ∷ b ∷ []) =
    let tmp = big_endian a b x y in digit tmp 26 ∷ digit tmp 20 ∷ digit tmp 14 ∷ codes "="
encode (x, y, z) (a ∷ b ∷ c ∷ []) =
    let tmp = big_endian a b c x in digit tmp 26 ∷ digit tmp 20 ∷ digit tmp 14 ∷ digit tmp 8 ∷ []
encode behind (a ∷ b ∷ c ∷ d ∷ s) =
    let tmp = big_endian a b c d in
    digit tmp 26 ∷ digit tmp 20 ∷ digit tmp 14 ∷ digit tmp 8 ∷ encode behind (d ∷ s)
