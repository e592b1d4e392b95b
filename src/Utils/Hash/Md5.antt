-- ===== src/Utils/Hash/Md5.antt =====
-- `MD5` of utils/md5.cpp.
use dumais_lib.Prelude.{ℕ, ◌+◌, ◌*◌, ◌%◌, List, [], ◌∷◌, Text, get_or, ltb, if◌then◌else◌}
use Prim.Native.Nat.{bit_and, bit_or, bit_xor}
use dumais_lib.Utils.Hash.{add32, not32, rol, words_of, bytes_of, add_words, to_hex}
use dumais_lib.Utils.Hash.Blocks.{blocks, low_bytes, bit_size}

-- `s` and `K`.
unfoldable pub md5_s : List ℕ
md5_s =
    7 ∷ 12 ∷ 17 ∷ 22 ∷ 7 ∷ 12 ∷ 17 ∷ 22 ∷ 7 ∷ 12 ∷ 17 ∷ 22 ∷ 7 ∷ 12 ∷ 17 ∷ 22 ∷ 5 ∷ 9 ∷ 14 ∷ 20 ∷ 5
    ∷ 9 ∷ 14 ∷ 20 ∷ 5 ∷ 9 ∷ 14 ∷ 20 ∷ 5 ∷ 9 ∷ 14 ∷ 20 ∷ 4 ∷ 11 ∷ 16 ∷ 23 ∷ 4 ∷ 11 ∷ 16 ∷ 23 ∷ 4 ∷ 11
    ∷ 16 ∷ 23 ∷ 4 ∷ 11 ∷ 16 ∷ 23 ∷ 6 ∷ 10 ∷ 15 ∷ 21 ∷ 6 ∷ 10 ∷ 15 ∷ 21 ∷ 6 ∷ 10 ∷ 15 ∷ 21 ∷ 6 ∷ 10
    ∷ 15 ∷ 21 ∷ []

unfoldable pub md5_k : List ℕ
md5_k =
    0xd76aa478 ∷ 0xe8c7b756 ∷ 0x242070db ∷ 0xc1bdceee ∷ 0xf57c0faf ∷ 0x4787c62a ∷ 0xa8304613
    ∷ 0xfd469501 ∷ 0x698098d8 ∷ 0x8b44f7af ∷ 0xffff5bb1 ∷ 0x895cd7be ∷ 0x6b901122 ∷ 0xfd987193
    ∷ 0xa679438e ∷ 0x49b40821 ∷ 0xf61e2562 ∷ 0xc040b340 ∷ 0x265e5a51 ∷ 0xe9b6c7aa ∷ 0xd62f105d
    ∷ 0x02441453 ∷ 0xd8a1e681 ∷ 0xe7d3fbc8 ∷ 0x21e1cde6 ∷ 0xc33707d6 ∷ 0xf4d50d87 ∷ 0x455a14ed
    ∷ 0xa9e3e905 ∷ 0xfcefa3f8 ∷ 0x676f02d9 ∷ 0x8d2a4c8a ∷ 0xfffa3942 ∷ 0x8771f681 ∷ 0x6d9d6122
    ∷ 0xfde5380c ∷ 0xa4beea44 ∷ 0x4bdecfa9 ∷ 0xf6bb4b60 ∷ 0xbebfbc70 ∷ 0x289b7ec6 ∷ 0xeaa127fa
    ∷ 0xd4ef3085 ∷ 0x04881d05 ∷ 0xd9d4d039 ∷ 0xe6db99e5 ∷ 0x1fa27cf8 ∷ 0xc4ac5665 ∷ 0xf4292244
    ∷ 0x432aff97 ∷ 0xab9423a7 ∷ 0xfc93a039 ∷ 0x655b59c3 ∷ 0x8f0ccc92 ∷ 0xffeff47d ∷ 0x85845dd1
    ∷ 0x6fa87e4f ∷ 0xfe2ce6e0 ∷ 0xa3014314 ∷ 0x4e0811a1 ∷ 0xf7537e82 ∷ 0xbd3af235 ∷ 0x2ad7d2bb
    ∷ 0xeb86d391 ∷ []

-- The local variables of the rounds.
pub record Md5State : Type 0 where
  pub a : ℕ
  pub b : ℕ
  pub c : ℕ
  pub d : ℕ

unfoldable pub md5_f : ℕ → Md5State → ℕ
md5_f i s =
    if ltb i 16
    then bit_or (bit_and s.b s.c) (bit_and (not32 s.b) s.d)
    else if ltb i 32
    then bit_or (bit_and s.d s.b) (bit_and (not32 s.d) s.c)
    else if ltb i 48
    then bit_xor (bit_xor s.b s.c) s.d
    else bit_xor s.c (bit_or s.b (not32 s.d))

unfoldable pub md5_g : ℕ → ℕ
md5_g i =
    if ltb i 16
    then i
    else if ltb i 32
    then (5 * i + 1) % 16
    else if ltb i 48
    then (3 * i + 5) % 16
    else 7 * i % 16

unfoldable pub md5_round : (i k shift : ℕ) (chunk : List ℕ) → Md5State → Md5State
unfolding md5_f md5_g rol
md5_round i k shift chunk s = record {
  a = s.d;
  b = add32 s.b (rol (add32 (add32 (add32 s.a (md5_f i s)) k) (get_or chunk (md5_g i) 0)) shift);
  c = s.b;
  d = s.c;
}

unfoldable pub md5_rounds : ℕ → (ks shifts chunk : List ℕ) → Md5State → Md5State
unfolding md5_round
md5_rounds i (k ∷ ks) (shift ∷ shifts) chunk s =
    md5_rounds (i + 1) ks shifts chunk (md5_round i k shift chunk s)
md5_rounds i ks shifts chunk s = s

-- One round of the loop over the blocks, on `H`.
unfoldable pub md5_block : Text → List ℕ → List ℕ
unfolding md5_rounds md5_k md5_s words_of add_words
md5_block block h =
    let start : Md5State = record {
      a = get_or h 0 0;
      b = get_or h 1 0;
      c = get_or h 2 0;
      d = get_or h 3 0;
    } in
    let s = md5_rounds 0 md5_k md5_s (words_of block) start in
    add_words h (s.a ∷ s.b ∷ s.c ∷ s.d ∷ [])

unfoldable pub md5_blocks : List Text → List ℕ → List ℕ
unfolding md5_block
md5_blocks [] h = h
md5_blocks (block ∷ rest) h = md5_blocks rest (md5_block block h)

abbrev pub md5_start : List ℕ
md5_start = 0x67452301 ∷ 0xefcdab89 ∷ 0x98badcfe ∷ 0x10325476 ∷ []

-- The constructor, with the bytes of `H` as `getDigest` gives them; what it prints is left out.
unfoldable pub md5 : Text → Text
unfolding md5_blocks blocks low_bytes bytes_of
md5 input = bytes_of (md5_blocks (blocks (low_bytes 8 (bit_size input)) input) md5_start)

-- `WebServer::computemd5` of webserver/WebServer.cpp.
unfoldable pub compute_md5 : Text → Text
unfolding md5 to_hex
compute_md5 st = to_hex (md5 st)
