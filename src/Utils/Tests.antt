-- ===== src/Utils/Tests.antt =====
-- Runs of the ring of utils/MPSCRingBuffer.h, of the hashes' padding, and of Base64.
use dumais_lib.Prelude.{ℕ, codes, true, false, some, [], ◌∷◌, ◌≡◌, refl, arith}
use dumais_lib.Utils.RingBuffer.Producers.{
  System, Reach, start, later, produce, consume, start_system, HasRoom, load, cas_win, accept,
  store, publish, some_left, ready, copy, clear, advance,
}
use dumais_lib.Utils.RingBuffer.Producers.Invariant.{Inv}
use dumais_lib.Utils.RingBuffer.Producers.Order.{Reach-Inv}
use dumais_lib.Utils.Hash.Blocks.{blocks}
use dumais_lib.Utils.Hash.Padding.{padded, joined_blocks, blocks-padded}
use dumais_lib.Utils.Base64.{AreBytes, encode}
use dumais_lib.Utils.Base64.Decode.{decode, decode-encode}
use dumais_lib.Utils.RingBuffer.{Ring, empty_ring, put, get}
use dumais_lib.Utils.RingBuffer.Refine.{Holds, empty_ring-Holds, put_room, put_overflow, get-cons}

abbrev three : Ring ℕ
three = empty_ring 0 3

three-Holds : Holds three []
three-Holds = empty_ring-Holds 0 3 (omega arith) (omega arith)

abbrev one : Ring ℕ
one = (put three 7).1

one-Holds : Holds one (7 ∷ [])
one-Holds = (put_room three [] 7 three-Holds (unfold empty_ring in omega arith)).1

abbrev two : Ring ℕ
two = (put one 8).1

put_room_example : ((put three 7).0 ≡ true) × Holds (put three 7).1 (7 ∷ [])
unfolding empty_ring
put_room_example = put_room three [] 7 three-Holds (omega arith)

two-Holds : Holds two (7 ∷ 8 ∷ [])
unfolding empty_ring put
two-Holds = (put_room one (7 ∷ []) 8 one-Holds (omega arith)).1

put_overflow_example : ((put two 9).0 ≡ false) × Holds (put two 9).1 []
unfolding empty_ring put
put_overflow_example = put_overflow two (7 ∷ 8 ∷ []) 9 two-Holds refl

get-cons_example : ((get two).0 ≡ some 7) × Holds (get two).1 (8 ∷ [])
get-cons_example = get-cons two 7 (8 ∷ []) two-Holds

-- Two producers have reserved a slot each, and are about to write to it.
run_one : (s : System ℕ) × ((r : Reach (start_system 0 4) s) × HasRoom r)
unfolding start_system empty_ring HasRoom
run_one = (
  _,
  (
    later
        (later
          (later
            (later (later (later start (produce 0 (load {x = 7}))) (produce 0 (cas_win refl)))
              (produce 1 (load {x = 8})))
            (produce 1 (cas_win refl)))
          (produce 0 (accept (omega arith))))
        (produce 1 (accept (omega arith))),
    ((((((tt, tt), omega arith), tt), omega arith), tt), tt),
  ),
)

Reach-Inv_example : Inv run_one.0.mem run_one.0.producers run_one.0.consumer
Reach-Inv_example =
    Reach-Inv 0 4 (omega arith) (omega arith) {s = run_one.0} run_one.1.0 run_one.1.1

-- The second producer returns first, then the first one, and the consumer takes its item.
run_two : (s : System ℕ) × ((r : Reach (start_system 0 4) s) × HasRoom r)
unfolding run_one start_system empty_ring HasRoom
run_two =
    let r = run_one.1.0 in
    (
      _,
      (
        later
            (later
              (later
                (later
                  (later
                    (later
                      (later (later (later r (produce 1 (store refl))) (produce 1 (publish refl)))
                        (produce 0 (store refl)))
                      (produce 0 (publish refl)))
                    (consume (some_left (λ e. omega arith))))
                  (consume (ready refl refl)))
                (consume (copy refl)))
              (consume (clear refl)))
            (consume advance),
        ((((run_one.1.1, tt), tt), tt), tt),
      ),
    )

first_taken_test : run_two.0.mem.taken ≡ 7 ∷ []
unfolding run_two
first_taken_test = refl

blocks-padded_example :
    joined_blocks (blocks (0 ∷ 0 ∷ 0 ∷ 0 ∷ 0 ∷ 0 ∷ 0 ∷ 24 ∷ []) (codes "abc"))
    ≡ padded (0 ∷ 0 ∷ 0 ∷ 0 ∷ 0 ∷ 0 ∷ 0 ∷ 24 ∷ []) (codes "abc")
blocks-padded_example =
    blocks-padded (0 ∷ 0 ∷ 0 ∷ 0 ∷ 0 ∷ 0 ∷ 0 ∷ 24 ∷ []) (codes "abc") (omega arith)

bytes_AreBytes : AreBytes (200 ∷ 17 ∷ [])
unfolding AreBytes
bytes_AreBytes = (omega arith, (omega arith, tt))

decode-encode_example : decode (encode (255, 3, 0) (200 ∷ 17 ∷ [])) ≡ 200 ∷ 17 ∷ []
decode-encode_example =
    decode-encode 255 3 0 (200 ∷ 17 ∷ []) (omega arith) (omega arith) (omega arith) bytes_AreBytes
