-- ===== src/Json/Edit.antt =====
-- The operations that change a tree: `addValue`, `addObject`, `addList` and the setters of
-- json/Value.cpp, json/Object.cpp and json/List.cpp.
use dumais_lib.Prelude.{
  ℕ, zero, suc, ◌+◌, Bool, true, false, Option, none, some, [], ◌∷◌, ◌++◌, Text, codes,
  if◌then◌else◌,
}
use dumais_lib.Json.Types.{SubType, string, bool, int, uint, double}
use dumais_lib.Json.Escape.{unescape_string}
use dumais_lib.Json.Decimal.{decimal}
use dumais_lib.Json.Node.{
  Node, value, list, object, Items, no_items, Members, no_members, Ref, find, insert, push_back,
  count_members, new_value,
}

-- What is put into a tree: a text, a number that is not negative, a negative number, a real number as
-- the stream prints it, or a truth value.
pub data Scalar : Type 0 where
  text : Text → Scalar
  natural : ℕ → Scalar
  negative : ℕ → Scalar
  real : Text → Scalar
  truth : Bool → Scalar

abbrev pub print_truth : Bool → Text
print_truth true = codes "true"
print_truth false = codes "false"

-- The constructors of `Value`. The one for `int` has the subtype of `unsigned int`.
unfoldable pub value_of : Scalar → Node
unfolding new_value
value_of (text s) = new_value s string
value_of (natural n) = value (decimal n) uint
value_of (negative n) = value (b'-' ∷ decimal n) uint
value_of (real s) = value s double
value_of (truth b) = value (print_truth b) bool

-- `setStringValue`, `setUInt`, `setInt`, `setDouble` and `setBool`, which only a `Value` heeds;
-- `unsigned` chooses between `setUInt` and `setInt`.
unfoldable pub set_value : (unsigned : Bool) → Scalar → Node → Node
set_value unsigned (text s) (value t k) = value (unescape_string s) string
set_value unsigned (natural n) (value t k) = value (decimal n) (if unsigned then uint else int)
set_value unsigned (negative n) (value t k) = value (b'-' ∷ decimal n) int
set_value unsigned (real s) (value t k) = value s double
set_value unsigned (truth b) (value t k) = value (print_truth b) bool
set_value unsigned s (list xs) = list xs
set_value unsigned s (object ms) = object ms

-- The keys that `generateKey` tries.
abbrev pub key_number : ℕ → Text
key_number i = codes "key" ++ decimal i

-- The loop of `generateKey` from `i` on; `none` means that the fuel ran out.
unfoldable pub search_key : (fuel : ℕ) → ℕ → Members → Option Text
unfolding find
search_key zero i ms = none
search_key (suc f) i ms =
    let rest = search_key f (i + 1) ms in
    elim (find (key_number i) ms) [ none ↦ some (key_number i) | some v ↦ rest ]

-- `generateKey`: one round more than there are members.
unfoldable pub generate_key : Members → Option Text
unfolding search_key
generate_key ms = search_key (suc (count_members ms)) (count_members ms) ms

-- The key for a name: a generated one for the empty name.
unfoldable pub key_for : Text → Members → Option Text
unfolding generate_key
key_for [] ms = generate_key ms
key_for (c ∷ name) ms = some (c ∷ name)

-- `addValue`, `addObject` and `addList` of an `Object`, of a `List`, which leaves the name out, and of a
-- `Value`, which returns `mInvalid`: the tree, and the reference that is returned.
unfoldable pub add_to_object : Node → (name : Text) → Members → Node × Ref
unfolding key_for insert
add_to_object v name ms = elim (key_for name ms) [
  | none ↦ (object ms, none)
  | some k ↦ (object (insert k v ms), some v)
]

unfoldable pub add_to_list : Node → Items → Node × Ref
unfolding push_back
add_to_list v xs = (list (push_back xs v), some v)

unfoldable pub add_to_value : Text → SubType → Node × Ref
add_to_value s t = (value s t, none)

-- The three operations of a node.
unfoldable pub add_node : Node → (name : Text) → Node → Node × Ref
unfolding add_to_object add_to_list add_to_value
add_node v name (object ms) = add_to_object v name ms
add_node v name (list xs) = add_to_list v xs
add_node v name (value s t) = add_to_value s t

unfoldable pub add_value : Scalar → (name : Text) → Node → Node × Ref
unfolding add_node value_of
add_value s = add_node (value_of s)

unfoldable pub add_object : (name : Text) → Node → Node × Ref
unfolding add_node
add_object = add_node (object no_members)

unfoldable pub add_list : (name : Text) → Node → Node × Ref
unfolding add_node
add_list = add_node (list no_items)
