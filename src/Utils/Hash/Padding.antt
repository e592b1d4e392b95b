-- ===== src/Utils/Hash/Padding.antt =====
-- The padding of FIPS 180 and RFC 1321, and the blocks that utils/sha1.cpp, utils/sha256.cpp and
-- utils/md5.cpp work on.
use dumais_lib.Prelude.{
  ℕ, zero, suc, ◌+◌, ◌-◌, ◌/◌, ◌%◌, ◌^◌, ◌≤◌, ◌<◌, ◌≡◌, refl, ap, ap₂, sym, ◌∙◌, arith, List, [],
  ◌∷◌, ◌++◌, Text, length, take, drop, replicate, leb, append_assoc, append-nil, length-drop, true,
  false, Bool-cases, inl, inr,
}
use dumais_lib.Utils.Hash.Blocks.{blocks_from, last_bytes, with_size, num_chunks, blocks}

unfoldable pub zeros_of : ℕ → ℕ
zeros_of n = (119 - n % 64) % 64

-- The message with a bit 1, as few zeros as make its length 56 modulo 64, and the size.
unfoldable pub padded : (size_bytes : Text) → Text → Text
padded size_bytes s = s ++ (0x80 ∷ (replicate (zeros_of (length s)) 0 ++ size_bytes))

unfoldable pub joined_blocks : List Text → Text
joined_blocks [] = []
joined_blocks (b ∷ bs) = b ++ joined_blocks bs

replicate-add : (m n : ℕ) (x : ℕ) → replicate (m + n) x ≡ replicate m x ++ replicate n x
replicate-add zero n x = ap (λ k. replicate k x) {x = 0 + n} {y = n} (omega arith)
replicate-add (suc m) n x =
    ap (λ k. replicate k x) {x = suc m + n} {y = suc (m + n)} (omega arith)
    ∙ ap (λ t. x ∷ t) (replicate-add m n x)

take-replicate : (m n : ℕ) (x : ℕ) → m ≤ n → take m (replicate n x) ≡ replicate m x
take-replicate zero n x h = refl
take-replicate (suc m) zero x h = absurd (omega arith)
take-replicate (suc m) (suc n) x h = ap (λ t. x ∷ t) (take-replicate m n x (omega arith))

take_behind : (s t : Text) (m : ℕ) → take (length s + m) (s ++ t) ≡ s ++ take m t
take_behind [] t m = ap (λ k. take k t) {x = 0 + m} {y = m} (omega arith)
take_behind (c ∷ s) t m =
    ap (λ k. take k (c ∷ (s ++ t))) {x = suc (length s) + m} {y = suc (length s + m)} (omega arith)
    ∙ ap (λ r. c ∷ r) (take_behind s t m)

take-drop : (n : ℕ) (s : Text) → take n s ++ drop n s ≡ s
take-drop zero s = refl
take-drop (suc n) [] = refl
take-drop (suc n) (c ∷ s) = ap (λ t. c ∷ t) (take-drop n s)

drop_short : (n : ℕ) (s : Text) → length s ≤ n → drop n s ≡ []
drop_short zero [] h = refl
drop_short zero (c ∷ s) h = absurd (omega arith)
drop_short (suc n) [] h = refl
drop_short (suc n) (c ∷ s) h = drop_short n s (omega arith)

-- The last block when the size fits behind what is left.
one_block :
    (size_bytes rest : Text)
    → length rest ≤ 55
    → with_size size_bytes (last_bytes rest 0x80)
      ≡ rest ++ (0x80 ∷ (replicate (55 - length rest) 0 ++ size_bytes))
unfolding with_size last_bytes
one_block size_bytes rest h =
    let n = length rest in
    let cut : take 56 (rest ++ 0x80 ∷ replicate (63 - n) 0) ≡ rest ++ 0x80 ∷ replicate (55 - n) 0 =
      ap (λ k. take k (rest ++ 0x80 ∷ replicate (63 - n) 0)) {x = 56} {y = n + suc (55 - n)}
        (omega arith)
      ∙ take_behind rest (0x80 ∷ replicate (63 - n) 0) (suc (55 - n))
      ∙ ap (λ t. rest ++ 0x80 ∷ t) (take-replicate (55 - n) (63 - n) 0 (omega arith)) in
    ap (λ t. t ++ size_bytes) cut ∙ append_assoc rest (0x80 ∷ replicate (55 - n) 0) size_bytes

-- The last two when it does not.
two_blocks :
    (size_bytes rest : Text)
    → 56 ≤ length rest
    → length rest < 64
    → last_bytes rest 0x80 ++ with_size size_bytes (last_bytes [] 0)
      ≡ rest ++ (0x80 ∷ (replicate (119 - length rest) 0 ++ size_bytes))
unfolding with_size last_bytes
two_blocks size_bytes rest h k =
    let n = length rest in
    append_assoc rest (0x80 ∷ replicate (63 - n) 0) (replicate 56 0 ++ size_bytes)
    ∙ ap (λ t. rest ++ 0x80 ∷ t)
        (sym (append_assoc (replicate (63 - n) 0) (replicate 56 0) size_bytes)
          ∙ ap (λ t. t ++ size_bytes)
              (sym (replicate-add (63 - n) 56 0)
                ∙ ap (λ m. replicate m 0) {x = 63 - n + 56} {y = 119 - n} (omega arith)))

from-whole :
    (size_bytes : Text) (rounds : ℕ) (rest : Text) (trail : ℕ)
    → 64 ≤ length rest
    → blocks_from size_bytes (suc (suc rounds)) rest trail
      ≡ take 64 rest ∷ blocks_from size_bytes (suc rounds) (drop 64 rest) trail
unfolding blocks_from
from-whole size_bytes rounds rest trail h =
    let whole : leb 64 (length rest) ≡ true = ground arith in
    let more : leb 1 (suc rounds) ≡ true = ground arith in rw (whole, more) refl

from-last :
    (size_bytes rest : Text) (trail : ℕ)
    → length rest < 64
    → blocks_from size_bytes 1 rest trail ≡ with_size size_bytes (last_bytes rest trail) ∷ []
unfolding blocks_from
from-last size_bytes rest trail h =
    let part : leb 64 (length rest) ≡ false = ground arith in rw part refl

from-part :
    (size_bytes rest : Text) (trail : ℕ)
    → length rest < 64
    → blocks_from size_bytes 2 rest trail
      ≡ last_bytes rest trail ∷ with_size size_bytes (last_bytes [] 0) ∷ []
unfolding blocks_from
from-part size_bytes rest trail h =
    let part : leb 64 (length rest) ≡ false = ground arith in
    rw (part, drop_short 64 rest (omega arith)) refl

padded-whole :
    (size_bytes rest : Text)
    → 64 ≤ length rest
    → take 64 rest ++ padded size_bytes (drop 64 rest) ≡ padded size_bytes rest
unfolding padded zeros_of
padded-whole size_bytes rest h =
    let n = length (drop 64 rest) in
    let same : (119 - n % 64) % 64 ≡ (119 - length rest % 64) % 64 =
      omega (arith, length-drop 64 rest) in
    sym (
      append_assoc (take 64 rest) (drop 64 rest)
        (0x80 ∷ (replicate ((119 - n % 64) % 64) 0 ++ size_bytes)))
    ∙ ap₂ (λ t k. t ++ (0x80 ∷ (replicate k 0 ++ size_bytes))) (take-drop 64 rest) same

joined-one :
    (size_bytes rest : Text)
    → length rest ≤ 55
    → joined_blocks (blocks_from size_bytes 1 rest 0x80) ≡ padded size_bytes rest
unfolding joined_blocks padded zeros_of
joined-one size_bytes rest h =
    ap joined_blocks (from-last size_bytes rest 0x80 (omega arith))
    ∙ append-nil (with_size size_bytes (last_bytes rest 0x80))
    ∙ one_block size_bytes rest h
    ∙ ap (λ k. rest ++ (0x80 ∷ (replicate k 0 ++ size_bytes))) (omega arith)

joined-two :
    (size_bytes rest : Text)
    → 56 ≤ length rest
    → length rest < 64
    → joined_blocks (blocks_from size_bytes 2 rest 0x80) ≡ padded size_bytes rest
unfolding joined_blocks padded zeros_of
joined-two size_bytes rest h k =
    ap joined_blocks (from-part size_bytes rest 0x80 k)
    ∙ ap (λ t. last_bytes rest 0x80 ++ t) (append-nil (with_size size_bytes (last_bytes [] 0)))
    ∙ two_blocks size_bytes rest h k
    ∙ ap (λ m. rest ++ (0x80 ∷ (replicate m 0 ++ size_bytes))) (omega arith)

joined-cons : (b : Text) (bs : List Text) → joined_blocks (b ∷ bs) ≡ b ++ joined_blocks bs
unfolding joined_blocks
joined-cons b bs = refl

joined-from :
    (size_bytes : Text) (rounds : ℕ) (rest : Text)
    → rounds ≡ (length rest + 72) / 64
    → joined_blocks (blocks_from size_bytes rounds rest 0x80) ≡ padded size_bytes rest
joined-from size_bytes zero rest e = absurd (omega arith)
joined-from size_bytes (suc zero) rest e = joined-one size_bytes rest (omega arith)
joined-from size_bytes (suc (suc r)) rest e = elim (Bool-cases (leb 64 (length rest))) [
  | inl whole ↦
      let long : 64 ≤ length rest = ground arith in
      ap joined_blocks (from-whole size_bytes r rest 0x80 long)
      ∙ joined-cons (take 64 rest) (blocks_from size_bytes (suc r) (drop 64 rest) 0x80)
      ∙ ap (λ t. take 64 rest ++ t)
          (joined-from size_bytes (suc r) (drop 64 rest) (omega (arith, length-drop 64 rest)))
      ∙ padded-whole size_bytes rest long
  | inr part ↦
      let short : length rest < 64 = ground arith in
      let two : suc (suc r) ≡ 2 = omega arith in
      ap (λ n. joined_blocks (blocks_from size_bytes n rest 0x80)) two
      ∙ joined-two size_bytes rest (omega arith) short
]

-- The blocks that the loop of a hash works on are together the padded message: the input, a byte
-- 0x80, zeros up to eight bytes before a multiple of 64, and the eight bytes of the size, for an
-- input whose length and 72 more are less than 2 ^ 32.
pub blocks-padded :
    (size_bytes input : Text)
    → length input + 72 < 2 ^ 32
    → joined_blocks (blocks size_bytes input) ≡ padded size_bytes input
unfolding blocks
blocks-padded size_bytes input h =
    joined-from size_bytes (num_chunks (length input)) input (omega arith)
