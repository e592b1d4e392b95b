-- ===== src/Utils/Hash/Sha256.antt =====
-- `SHA256` of utils/sha256.cpp.
use dumais_lib.Prelude.{ℕ, zero, suc, ◌-◌, ◌/◌, ◌^◌, List, [], ◌∷◌, ◌++◌, Text, length, get_or, map}
use Prim.Native.Nat.{bit_and, bit_xor}
use dumais_lib.Utils.Hash.{add32, not32, ror, words_of, bytes_of, move_be, add_words}
use dumais_lib.Utils.Hash.Blocks.{blocks, high_bytes, bit_size}

-- `K`.
unfoldable pub sha256_k : List ℕ
sha256_k =
    0x428a2f98 ∷ 0x71374491 ∷ 0xb5c0fbcf ∷ 0xe9b5dba5 ∷ 0x3956c25b ∷ 0x59f111f1 ∷ 0x923f82a4
    ∷ 0xab1c5ed5 ∷ 0xd807aa98 ∷ 0x12835b01 ∷ 0x243185be ∷ 0x550c7dc3 ∷ 0x72be5d74 ∷ 0x80deb1fe
    ∷ 0x9bdc06a7 ∷ 0xc19bf174 ∷ 0xe49b69c1 ∷ 0xefbe4786 ∷ 0x0fc19dc6 ∷ 0x240ca1cc ∷ 0x2de92c6f
    ∷ 0x4a7484aa ∷ 0x5cb0a9dc ∷ 0x76f988da ∷ 0x983e5152 ∷ 0xa831c66d ∷ 0xb00327c8 ∷ 0xbf597fc7
    ∷ 0xc6e00bf3 ∷ 0xd5a79147 ∷ 0x06ca6351 ∷ 0x14292967 ∷ 0x27b70a85 ∷ 0x2e1b2138 ∷ 0x4d2c6dfc
    ∷ 0x53380d13 ∷ 0x650a7354 ∷ 0x766a0abb ∷ 0x81c2c92e ∷ 0x92722c85 ∷ 0xa2bfe8a1 ∷ 0xa81a664b
    ∷ 0xc24b8b70 ∷ 0xc76c51a3 ∷ 0xd192e819 ∷ 0xd6990624 ∷ 0xf40e3585 ∷ 0x106aa070 ∷ 0x19a4c116
    ∷ 0x1e376c08 ∷ 0x2748774c ∷ 0x34b0bcb5 ∷ 0x391c0cb3 ∷ 0x4ed8aa4a ∷ 0x5b9cca4f ∷ 0x682e6ff3
    ∷ 0x748f82ee ∷ 0x78a5636f ∷ 0x84c87814 ∷ 0x8cc70208 ∷ 0x90befffa ∷ 0xa4506ceb ∷ 0xbef9a3f7
    ∷ 0xc67178f2 ∷ []

-- The local variables of the rounds.
pub record Sha256State : Type 0 where
  pub a : ℕ
  pub b : ℕ
  pub c : ℕ
  pub d : ℕ
  pub e : ℕ
  pub f : ℕ
  pub g : ℕ
  pub h : ℕ

-- `w[16]` to `w[63]`, one after the other.
unfoldable pub sha256_schedule : (count : ℕ) → List ℕ → List ℕ
unfolding ror
sha256_schedule zero w = w
sha256_schedule (suc n) w =
    let back = λ (k : ℕ). get_or w (length w - k) 0 in
    let s0 = bit_xor (bit_xor (ror (back 15) 7) (ror (back 15) 18)) (back 15 / 2 ^ 3) in
    let s1 = bit_xor (bit_xor (ror (back 2) 17) (ror (back 2) 19)) (back 2 / 2 ^ 10) in
    sha256_schedule n (w ++ add32 (add32 (add32 (back 16) s0) (back 7)) s1 ∷ [])

unfoldable pub sha256_round : (k w : ℕ) → Sha256State → Sha256State
unfolding ror
sha256_round k w s =
    let s1 = bit_xor (bit_xor (ror s.e 6) (ror s.e 11)) (ror s.e 25) in
    let ch = bit_xor (bit_and s.e s.f) (bit_and (not32 s.e) s.g) in
    let t1 = add32 (add32 (add32 (add32 s.h s1) ch) k) w in
    let s0 = bit_xor (bit_xor (ror s.a 2) (ror s.a 13)) (ror s.a 22) in
    let maj = bit_xor (bit_xor (bit_and s.a s.b) (bit_and s.a s.c)) (bit_and s.b s.c) in
    let t2 = add32 s0 maj in
    record {
      a = add32 t1 t2;
      b = s.a;
      c = s.b;
      d = s.c;
      e = add32 s.d t1;
      f = s.e;
      g = s.f;
      h = s.g;
    }

unfoldable pub sha256_rounds : (ks ws : List ℕ) → Sha256State → Sha256State
unfolding sha256_round
sha256_rounds (k ∷ ks) (w ∷ ws) s = sha256_rounds ks ws (sha256_round k w s)
sha256_rounds ks ws s = s

-- One round of the loop over the blocks, on `H`.
unfoldable pub sha256_block : Text → List ℕ → List ℕ
unfolding sha256_rounds sha256_schedule sha256_k words_of move_be add_words
sha256_block block hs =
    let start : Sha256State = record {
      a = get_or hs 0 0;
      b = get_or hs 1 0;
      c = get_or hs 2 0;
      d = get_or hs 3 0;
      e = get_or hs 4 0;
      f = get_or hs 5 0;
      g = get_or hs 6 0;
      h = get_or hs 7 0;
    } in
    let s = sha256_rounds sha256_k (sha256_schedule 48 (map move_be (words_of block))) start in
    add_words hs (s.a ∷ s.b ∷ s.c ∷ s.d ∷ s.e ∷ s.f ∷ s.g ∷ s.h ∷ [])

unfoldable pub sha256_blocks : List Text → List ℕ → List ℕ
unfolding sha256_block
sha256_blocks [] hs = hs
sha256_blocks (block ∷ rest) hs = sha256_blocks rest (sha256_block block hs)

abbrev pub sha256_start : List ℕ
sha256_start =
    0x6a09e667 ∷ 0xbb67ae85 ∷ 0x3c6ef372 ∷ 0xa54ff53a ∷ 0x510e527f ∷ 0x9b05688c ∷ 0x1f83d9ab
    ∷ 0x5be0cd19 ∷ []

-- The constructor, with the bytes of `H` as `getDigest` gives them.
unfoldable pub sha256 : Text → Text
unfolding sha256_blocks blocks high_bytes move_be bytes_of
sha256 input =
    bytes_of
      (map move_be (sha256_blocks (blocks (high_bytes 8 (bit_size input)) input) sha256_start))
