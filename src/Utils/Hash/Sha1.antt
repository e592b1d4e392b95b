-- ===== src/Utils/Hash/Sha1.antt =====
-- `SHA1` of utils/sha1.cpp.
use dumais_lib.Prelude.{
  ℕ, zero, suc, ◌+◌, ◌-◌, List, [], ◌∷◌, ◌++◌, Text, length, get_or, map, ltb, if◌then◌else◌,
}
use Prim.Native.Nat.{bit_and, bit_or, bit_xor}
use dumais_lib.Utils.Hash.{add32, not32, rol, words_of, bytes_of, move_be, add_words}
use dumais_lib.Utils.Hash.Blocks.{blocks, high_bytes, bit_size}

-- The local variables of the rounds.
pub record Sha1State : Type 0 where
  pub a : ℕ
  pub b : ℕ
  pub c : ℕ
  pub d : ℕ
  pub e : ℕ

-- `w[16]` to `w[79]`, one after the other.
unfoldable pub sha1_schedule : (count : ℕ) → List ℕ → List ℕ
unfolding rol
sha1_schedule zero w = w
sha1_schedule (suc n) w =
    let back = λ (k : ℕ). get_or w (length w - k) 0 in
    sha1_schedule n
      (w ++ rol (bit_xor (bit_xor (bit_xor (back 3) (back 8)) (back 14)) (back 16)) 1 ∷ [])

unfoldable pub sha1_f : ℕ → Sha1State → ℕ
sha1_f i s =
    if ltb i 20
    then bit_or (bit_and s.b s.c) (bit_and (not32 s.b) s.d)
    else if ltb i 40
    then bit_xor (bit_xor s.b s.c) s.d
    else if ltb i 60
    then bit_or (bit_or (bit_and s.b s.c) (bit_and s.b s.d)) (bit_and s.c s.d)
    else bit_xor (bit_xor s.b s.c) s.d

unfoldable pub sha1_k : ℕ → ℕ
sha1_k i =
    if ltb i 20
    then 0x5a827999
    else if ltb i 40
    then 0x6ed9eba1
    else if ltb i 60
    then 0x8f1bbcdc
    else 0xca62c1d6

unfoldable pub sha1_round : ℕ → ℕ → Sha1State → Sha1State
unfolding sha1_f sha1_k rol
sha1_round i w s = record {
  a = add32 (add32 (add32 (add32 (rol s.a 5) (sha1_f i s)) s.e) (sha1_k i)) w;
  b = s.a;
  c = rol s.b 30;
  d = s.c;
  e = s.d;
}

unfoldable pub sha1_rounds : ℕ → List ℕ → Sha1State → Sha1State
unfolding sha1_round
sha1_rounds i [] s = s
sha1_rounds i (w ∷ ws) s = sha1_rounds (i + 1) ws (sha1_round i w s)

-- One round of the loop over the blocks, on `H`.
unfoldable pub sha1_block : Text → List ℕ → List ℕ
unfolding sha1_rounds sha1_schedule words_of move_be add_words
sha1_block block h =
    let start : Sha1State = record {
      a = get_or h 0 0;
      b = get_or h 1 0;
      c = get_or h 2 0;
      d = get_or h 3 0;
      e = get_or h 4 0;
    } in
    let s = sha1_rounds 0 (sha1_schedule 64 (map move_be (words_of block))) start in
    add_words h (s.a ∷ s.b ∷ s.c ∷ s.d ∷ s.e ∷ [])

unfoldable pub sha1_blocks : List Text → List ℕ → List ℕ
unfolding sha1_block
sha1_blocks [] h = h
sha1_blocks (block ∷ rest) h = sha1_blocks rest (sha1_block block h)

abbrev pub sha1_start : List ℕ
sha1_start = 0x67452301 ∷ 0xEFCDAB89 ∷ 0x98BADCFE ∷ 0x10325476 ∷ 0xC3D2E1F0 ∷ []

-- The constructor, with the bytes of `H` as `getDigest` gives them.
unfoldable pub sha1 : Text → Text
unfolding sha1_blocks blocks high_bytes move_be bytes_of
sha1 input =
    bytes_of (map move_be (sha1_blocks (blocks (high_bytes 8 (bit_size input)) input) sha1_start))
