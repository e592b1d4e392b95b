-- ===== src/Utils/Hash.antt =====
-- The hashes of utils/: `Hash` of utils/Hash.cpp, and what `SHA1`, `SHA256` and `MD5` share.
pub mod Blocks
pub mod Padding
pub mod Sha1
pub mod Sha256
pub mod Md5
pub mod Hex
mod Tests
use dumais_lib.Prelude.{
  ℕ, zero, suc, ◌+◌, ◌-◌, ◌*◌, ◌/◌, ◌%◌, ◌^◌, List, [], ◌∷◌, ◌++◌, Text, codes, get_or,
}
use Prim.Native.Nat.{bit_or}

-- Sums of `unsigned int`, and its complement.
abbrev pub add32 : ℕ → ℕ → ℕ
add32 a b = (a + b) % 2 ^ 32

abbrev pub not32 : ℕ → ℕ
not32 a = 2 ^ 32 - 1 - a

-- `ROL` and `ROR`.
unfoldable pub rol : ℕ → ℕ → ℕ
rol x shift = bit_or (x * 2 ^ shift % 2 ^ 32) (x / 2 ^ (32 - shift))

unfoldable pub ror : ℕ → ℕ → ℕ
ror x shift = bit_or (x / 2 ^ shift) (x * 2 ^ (32 - shift) % 2 ^ 32)

-- The words of memory, whose lowest byte comes first.
unfoldable pub words_of : Text → List ℕ
words_of (a ∷ b ∷ c ∷ d ∷ s) = (a + b * 2 ^ 8 + c * 2 ^ 16 + d * 2 ^ 24) ∷ words_of s
words_of s = []

unfoldable pub bytes_of : List ℕ → Text
bytes_of [] = []
bytes_of (x ∷ xs) = x % 256 ∷ x / 2 ^ 8 % 256 ∷ x / 2 ^ 16 % 256 ∷ x / 2 ^ 24 % 256 ∷ bytes_of xs

-- `MOVEBE`: the bytes of a word in the other order.
unfoldable pub move_be : ℕ → ℕ
move_be x = x / 2 ^ 24 + x % 256 * 2 ^ 24 + x / 2 ^ 16 % 256 * 2 ^ 8 + x / 2 ^ 8 % 256 * 2 ^ 16

-- `H[0]+=a;H[1]+=b;...`
unfoldable pub add_words : List ℕ → List ℕ → List ℕ
add_words (x ∷ xs) (y ∷ ys) = add32 x y ∷ add_words xs ys
add_words xs ys = []

-- `mDigits`, and the loop of `toHex`.
abbrev pub hex_digits : Text
hex_digits = codes "0123456789abcdef"

unfoldable pub to_hex : Text → Text
to_hex [] = []
to_hex (c ∷ s) = get_or hex_digits (c / 16) 0 ∷ get_or hex_digits (c % 16) 0 ∷ to_hex s
