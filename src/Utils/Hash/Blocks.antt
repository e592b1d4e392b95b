-- ===== src/Utils/Hash/Blocks.antt =====
-- The loop over the blocks of 64 bytes in utils/sha1.cpp, utils/sha256.cpp and utils/md5.cpp, which
-- fill `words` in the same way.
use dumais_lib.Prelude.{
  ℕ, zero, suc, ◌+◌, ◌-◌, ◌*◌, ◌/◌, ◌%◌, ◌^◌, List, [], ◌∷◌, ◌++◌, Text, length, take, drop,
  replicate, leb, if◌then◌else◌,
}

-- `memcpy` of what is left, `memset` of the rest, and the byte `trail` between them.
unfoldable pub last_bytes : Text → (trail : ℕ) → Text
last_bytes rest trail = rest ++ trail ∷ replicate (63 - length rest) 0

-- The last eight bytes are the size in bits, by `put_size`.
unfoldable pub with_size : Text → Text → Text
with_size size_bytes words = take 56 words ++ size_bytes

-- The rounds of the loop that are left, on what is left of the input: `size2` is its length.
unfoldable pub blocks_from : (size_bytes : Text) (rounds : ℕ) → Text → (trail : ℕ) → List Text
unfolding last_bytes with_size
blocks_from size_bytes zero rest trail = []
blocks_from size_bytes (suc rounds) rest trail =
    let whole = leb 64 (length rest) in
    let words = (if whole then take 64 rest else last_bytes rest trail) in
    let trail' = (if whole then trail else 0) in
    (if leb 1 rounds then words else with_size size_bytes words)
    ∷ blocks_from size_bytes rounds (drop 64 rest) trail'

-- `numChunks`.
abbrev pub num_chunks : ℕ → ℕ
num_chunks size = (size + 1 + 8 + 63) % 2 ^ 32 / 64

unfoldable pub blocks : (size_bytes : Text) → Text → List Text
unfolding blocks_from
blocks size_bytes input = blocks_from size_bytes (num_chunks (length input)) input 0x80

-- The eight bytes of the size in bits: the highest first in the two SHA, the lowest first in MD5.
unfoldable pub low_bytes : (count : ℕ) → ℕ → Text
low_bytes zero n = []
low_bytes (suc k) n = n % 256 ∷ low_bytes k (n / 256)

unfoldable pub high_bytes : (count : ℕ) → ℕ → Text
high_bytes zero n = []
high_bytes (suc k) n = high_bytes k (n / 256) ++ n % 256 ∷ []

abbrev pub bit_size : Text → ℕ
bit_size input = length input * 8 % 2 ^ 64
