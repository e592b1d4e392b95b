-- ===== src/Json/Moving.antt =====
-- Roots of json/JSON.cpp that are moved: the pointer `mRoot` of each of them.
mod Tests
use dumais_lib.Prelude.{
  ℕ, zero, suc, ◌≡◌, refl, ◌∙◌, ap, sym, arith, Bool, true, false, Bool-cases, inl, inr, some, Text,
  ◌==◌, if◌then◌else◌,
}
use dumais_lib.Json.Node.{Node, object, no_members, Ref}
use dumais_lib.Json.Edit.{Scalar, add_value}

-- `mRoot`: null, a `JSON` by its number (a new one's points to itself), or a tree.
pub data Pointer : Type 0 where
  null : Pointer
  root : ℕ → Pointer
  tree : Node → Pointer

abbrev pub Roots : Type 0
Roots = ℕ → Pointer

-- The constructor `JSON()`, of every root.
abbrev pub new_roots : Roots
new_roots i = root i

unfoldable pub set_root : ℕ → Pointer → Roots → Roots
set_root i p roots j = if i == j then p else roots j

-- `std::swap` of two pointers.
unfoldable pub swap : (i j : ℕ) → Roots → Roots
unfolding set_root
swap i j roots = set_root i (roots j) (set_root j (roots i) roots)

-- `JSON(JSON&&)` of the root `i` from the root `j`.
unfoldable pub move_construct : (i j : ℕ) → Roots → Roots
unfolding set_root swap
move_construct i j roots =
    if i == j then set_root i null roots else swap i j (set_root i null roots)

-- `operator=(JSON&&)`.
unfoldable pub move_assign : (i j : ℕ) → Roots → Roots
unfolding swap
move_assign i j roots = if i == j then roots else swap i j roots

-- What `addValue` of a root ends with: the roots and the reference that it returns, or a null pointer that
-- is used; `no_fuel` means that the calls nest deeper than the fuel.
pub data Added : Type 0 where
  added : Roots → Ref → Added
  null_pointer no_fuel : Added

unfoldable pub store_tree : ℕ → Roots → Node × Ref → Added
unfolding set_root
store_tree i roots (v, ref) = added (set_root i (tree v) roots) ref

-- `addValue` of the root `i`, which calls that of the root that it points to.
unfoldable pub add_value_at : (fuel : ℕ) → Scalar → (name : Text) → ℕ → Roots → Added
unfolding store_tree add_value
add_value_at zero s name i roots = no_fuel
add_value_at (suc f) s name i roots = elim (roots i) [
  | null ↦ null_pointer
  | tree v ↦ store_tree i roots (add_value s name v)
  | root j ↦ elim (j == i) [
    | true ↦ store_tree i roots (add_value s name (object no_members))
    | false ↦ add_value_at f s name j roots
  ]
]

swap-first : (i j : ℕ) (roots : Roots) → swap i j roots i ≡ roots j
unfolding swap set_root
swap-first i j roots = let e : (i == i) ≡ true = ground arith in rw e refl

swap-second : (i j : ℕ) (roots : Roots) → (i == j) ≡ false → swap i j roots j ≡ roots i
unfolding swap set_root
swap-second i j roots ne = let e : (j == j) ≡ true = ground arith in rw (ne, e) refl

-- Two roots that point to each other.
add_value_at-mutual :
    (f : ℕ) (s : Scalar) (name : Text) (i j : ℕ) (roots : Roots)
    → (i == j) ≡ false
    → (j == i) ≡ false
    → roots i ≡ root j
    → roots j ≡ root i
    → add_value_at f s name i roots ≡ no_fuel
unfolding add_value_at
add_value_at-mutual zero s name i j roots ne ne' at_i at_j = refl
add_value_at-mutual (suc f) s name i j roots ne ne' at_i at_j =
    rw (add_value_at, at_i)
      (rw (add_value_at, ne') (add_value_at-mutual f s name j i roots ne' ne at_j at_i))

-- After one new root has been moved to another new root by assignment, adding a value to either
-- of them never ends, whatever the depth of calls: each of the two points to the other.
pub add_value_at-moved :
    (f : ℕ) (s : Scalar) (name : Text) (i j : ℕ)
    → (i == j) ≡ false
    → (add_value_at f s name i (move_assign i j new_roots) ≡ no_fuel)
      × (add_value_at f s name j (move_assign i j new_roots) ≡ no_fuel)
unfolding move_assign
add_value_at-moved f s name i j ne =
    let ne' : (j == i) ≡ false = ground arith in
    rw ne (
      add_value_at-mutual f s name i j (swap i j new_roots) ne ne' (swap-first i j new_roots)
          (swap-second i j new_roots ne),
      add_value_at-mutual f s name j i (swap i j new_roots) ne' ne (swap-second i j new_roots ne)
          (swap-first i j new_roots),
    )

set_root_self : (i : ℕ) (p : Pointer) (roots : Roots) → set_root i p roots i ≡ p
unfolding set_root
set_root_self i p roots = let e : (i == i) ≡ true = ground arith in rw e refl

move_construct-second :
    (i j : ℕ) (roots : Roots) → (i == j) ≡ false → move_construct i j roots j ≡ null
unfolding move_construct
move_construct-second i j roots ne =
    ap (λ b. (if b then set_root i null roots else swap i j (set_root i null roots)) j) ne
    ∙ swap-second i j (set_root i null roots) ne
    ∙ set_root_self i null roots

-- A root that another one has been made of by a move has a null pointer, which adding a value uses.
pub add_value_at-moved_from :
    (f : ℕ) (s : Scalar) (name : Text) (i j : ℕ) (roots : Roots)
    → (i == j) ≡ false
    → add_value_at (suc f) s name j (move_construct i j roots) ≡ null_pointer
unfolding add_value_at
add_value_at-moved_from f s name i j roots ne =
    rw (add_value_at, move_construct-second i j roots ne) refl
