-- ===== src/WebSocket/Clients.antt =====
-- The frames of a client, and what the frame parser of websocket/WSProtocolParser.cpp reads in their
-- headers.
use dumais_lib.Prelude.{
  ℕ, zero, suc, ◌+◌, ◌*◌, ◌/◌, ◌%◌, ◌^◌, ◌<◌, ◌≡◌, refl, ap, sym, ◌∙◌, arith, Bool, true, false, [],
  ◌∷◌, ◌++◌, Text, length, ltb, inl, inr, Bool-cases, if◌then◌else◌, get_or,
}
use Prim.Native.Nat.{bit_or, bit_xor}
use dumais_lib.Prelude.Bits.{xor_twice, or_shifted}
use dumais_lib.WebSocket.Frame.{mask_of}
use dumais_lib.WebSocket.Parser.{header_size_of, payload_size, or_bytes, extended_size}
use dumais_lib.WebSocket.Connection.{Message, unmask}

-- A text of bytes.
unfoldable pub AreBytes : Text → Type 0
AreBytes [] = Unit {0}
AreBytes (c ∷ s) = (c < 256) × AreBytes s

-- A data message of a client with its masking key.
pub record Sent : Type 0 where
  pub opcode : ℕ
  pub key : Text
  pub text : Text

-- The second byte of the frame, and the bytes of the size behind it.
unfoldable pub size_byte : ℕ → ℕ
size_byte n = if ltb n 126 then 128 + n else 254

unfoldable pub extension : ℕ → Text
extension n = if ltb n 126 then [] else n / 256 ∷ n % 256 ∷ []

-- The bytes of a text, changed by the four bytes of a key in turn.
unfoldable pub masked_by : (k0 k1 k2 k3 : ℕ) → Text → Text
masked_by k0 k1 k2 k3 [] = []
masked_by k0 k1 k2 k3 (c ∷ s) = bit_xor c k0 ∷ masked_by k1 k2 k3 k0 s

unfoldable pub masked : (key : Text) → Text → Text
unfolding masked_by
masked key s = masked_by (get_or key 0 0) (get_or key 1 0) (get_or key 2 0) (get_or key 3 0) s

-- The frame of a message as RFC 6455 has it: the only one of its message, masked with the key.
unfoldable pub client_frame : Sent → Text
unfolding masked
client_frame m =
    let n = length m.text in
    (128 + m.opcode) ∷ size_byte n ∷ ((extension n ++ m.key) ++ masked m.key m.text)

-- What the frame is to be read as.
unfoldable pub received : Sent → Message
received m = record { buffer = m.text; type = m.opcode; fin = 1 }

-- Messages that fit: a size of 16 bits is read right where `char` is unsigned.
pub record IsSent (signed : Bool) (m : Sent) : Type 0 where
  pub data_opcode : m.opcode < 3
  pub key_size : length m.key ≡ 4
  pub key_bytes : AreBytes m.key
  pub text_bytes : AreBytes m.text
  pub text_filled : 0 < length m.text
  pub text_size : length m.text < (if signed then 126 else 65536)

get_or-byte : (s : Text) (i : ℕ) → AreBytes s → get_or s i 0 < 256
unfolding AreBytes
get_or-byte [] i h = ground arith
get_or-byte (c ∷ s) zero (hc, hs) = ground arith
get_or-byte (c ∷ s) (suc i) (hc, hs) = get_or-byte s i hs

-- Unmasking a masked text gives the text, if it and the key are of bytes.
pub unmask_twice :
    (key : Text) (i : ℕ) (s : Text) → AreBytes key → AreBytes s → unmask key i (unmask key i s) ≡ s
unfolding unmask AreBytes
unmask_twice key i [] hk hs = refl
unmask_twice key i (c ∷ s) hk (hc, hs) = rw (
  xor_twice c (get_or key (i % 4) 0) hc (get_or-byte key (i % 4) hk),
  unmask_twice key (i + 1) s hk hs,
)

unmask-masked_by :
    (key : Text) (i : ℕ) (s : Text)
    → unmask key i s
      ≡ masked_by
          (get_or key (i % 4) 0)
          (get_or key ((i + 1) % 4) 0)
          (get_or key ((i + 2) % 4) 0)
          (get_or key ((i + 3) % 4) 0)
          s
unfolding unmask masked_by
unmask-masked_by key i [] = refl
unmask-masked_by key i (c ∷ s) =
    let one : (i + 1 + 1) % 4 ≡ (i + 2) % 4 = omega arith in
    let two : (i + 1 + 2) % 4 ≡ (i + 3) % 4 = omega arith in
    let three : (i + 1 + 3) % 4 ≡ i % 4 = omega arith in
    ap (λ t. bit_xor c (get_or key (i % 4) 0) ∷ t)
      (unmask-masked_by key (i + 1) s ∙ rw (one, two, three) refl)

-- A server's unmasking is what a client's masking is.
pub masked-unmask : (key s : Text) → masked key s ≡ unmask key 0 s
unfolding masked
masked-unmask key s = sym (unmask-masked_by key 0 s)

pub length-unmask : (key : Text) (i : ℕ) (s : Text) → length (unmask key i s) ≡ length s
unfolding unmask
length-unmask key i [] = refl
length-unmask key i (c ∷ s) = rw (length-unmask key (i + 1) s)

length-extension : (n : ℕ) → length (extension n) ≡ (if ltb n 126 then 0 else 2)
unfolding extension
length-extension n = ground arith

pub size_byte-masked : (n : ℕ) → mask_of (size_byte n) ≡ 1
unfolding size_byte
size_byte-masked n = ground arith

pub header_size-size_byte : (n : ℕ) → header_size_of (size_byte n) ≡ 6 + length (extension n)
unfolding header_size_of size_byte
header_size-size_byte n = ground (arith, length-extension n)

two_bytes : (n : ℕ) → n < 65536 → bit_or (n / 256 * 2 ^ 8 % 2 ^ 64) (n % 256 * 2 ^ 0 % 2 ^ 64) ≡ n
two_bytes n h =
    let e : n / 256 * 2 ^ 8 % 2 ^ 64 ≡ n / 256 * 2 ^ 8 = omega arith in
    let d : n % 256 * 2 ^ 0 % 2 ^ 64 ≡ n % 256 = omega arith in
    rw (e, d, or_shifted 8 (n / 256) (n % 256) (omega arith)) (omega arith)

payload_size-short :
    (signed : Bool) (first n : ℕ) (key : Text)
    → n < 126
    → payload_size signed (first ∷ (128 + n) ∷ key) ≡ n
unfolding payload_size
payload_size-short signed first n key h = ground arith

payload_size-16 :
    (first n : ℕ) (key : Text)
    → n < 65536
    → payload_size false (first ∷ 254 ∷ n / 256 ∷ n % 256 ∷ key) ≡ n
unfolding payload_size extended_size or_bytes
payload_size-16 first n key h = two_bytes n h

pub payload_size-size_byte :
    (signed : Bool) (first n : ℕ) (key : Text)
    → n < (if signed then 126 else 65536)
    → payload_size signed (first ∷ size_byte n ∷ (extension n ++ key)) ≡ n
unfolding size_byte extension
payload_size-size_byte true first n key h =
    let short : ltb n 126 ≡ true = ground arith in rw short (payload_size-short true first n key h)
payload_size-size_byte false first n key h = elim (Bool-cases (ltb n 126)) [
  | inl short ↦ rw short (payload_size-short false first n key (ground arith))
  | inr long ↦ rw long (payload_size-16 first n key h)
]
