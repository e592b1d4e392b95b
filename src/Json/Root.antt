-- ===== src/Json/Root.antt =====
-- The class `JSON` of json/JSON.cpp: a root that forwards to the tree that it holds.
use dumais_lib.Prelude.{
  ℕ, ◌-◌, ◌^◌, Bool, true, false, Option, none, some, List, [], Text, codes, if◌then◌else◌, map,
}
use dumais_lib.Json.Number.{text_eq, to_lower}
use dumais_lib.Json.Node.{
  Node, value, list, object, no_members, Ref, count_items, get_by_key, get_by_index, member_keys,
  to_string, copy,
}
use dumais_lib.Json.Print.{Level, stringify}
use dumais_lib.Json.Parse.{Run, done, fault, no_fuel, parse}
use dumais_lib.Json.Edit.{Scalar, set_value, add_value, add_object, add_list}

-- `mRoot`: `none` is a root that refers to itself, which holds no tree. So does `mInvalid`, a reference
-- of the same type; its own operations change nothing.
abbrev pub Root : Type 0
Root = Option Node

-- `str`.
unfoldable pub str : Root → Text
unfolding to_string
str none = codes "{invalid}"
str (some v) = to_string v

-- `isValid`.
unfoldable pub is_valid : Root → Bool
is_valid none = false
is_valid (some v) = true

-- `getSize` of a node: only `List` has its own, and -1 is returned as a `size_t`.
unfoldable pub get_size : Node → ℕ
unfolding count_items
get_size (list xs) = count_items xs
get_size (object ms) = 2 ^ 64 - 1
get_size (value s t) = 2 ^ 64 - 1

-- `size`.
unfoldable pub size : Root → ℕ
unfolding get_size
size none = 2 ^ 64 - 1
size (some v) = get_size v

-- `keys`.
unfoldable pub keys : Root → List Text
unfolding member_keys
keys (some (object ms)) = member_keys ms
keys r = []

-- `operator[]`.
unfoldable pub at_index : Root → ℕ → Root
unfolding get_by_index
at_index none i = none
at_index (some v) i = get_by_index i v

unfoldable pub at_key : Root → Text → Root
unfolding get_by_key
at_key none k = none
at_key (some v) k = get_by_key k v

-- `toBool`.
unfoldable pub to_bool : Root → Bool
to_bool (some (value s t)) = text_eq (map to_lower s) (codes "true")
to_bool r = false

-- `stringify(bool)`.
unfoldable pub level_of : Bool → Level
level_of formatted = if formatted then some 1 else none

unfoldable pub print : Root → (formatted : Bool) → Text
unfolding level_of
print none formatted = codes "{}"
print (some v) formatted = stringify v (level_of formatted)

-- `assign`: the tree of the other root is copied.
unfoldable pub assign : Root → (other : Root) → Root
unfolding copy
assign r none = none
assign r (some v) = some (copy v)

-- `operator=` of a text, a number or a truth value.
unfoldable pub set : (unsigned : Bool) → Scalar → Root → Root
unfolding set_value
set unsigned s none = none
set unsigned s (some v) = some (set_value unsigned s v)

-- `parse`: what the root held is dropped.
unfoldable pub parse_root : Root → Text → Run Root
parse_root r s = elim (parse s) [ done v ↦ done (some v) | fault ↦ fault | no_fuel ↦ no_fuel ]

-- The tree that the adding operations work on: a root that holds none gets an empty object.
unfoldable pub adopt : Root → Node
adopt none = object no_members
adopt (some v) = v

unfoldable pub add_value_root : Scalar → (name : Text) → Root → Root × Ref
unfolding adopt
add_value_root s name r = let (v, ref) = add_value s name (adopt r) in (some v, ref)

unfoldable pub add_object_root : (name : Text) → Root → Root × Ref
unfolding adopt
add_object_root name r = let (v, ref) = add_object name (adopt r) in (some v, ref)

unfoldable pub add_list_root : (name : Text) → Root → Root × Ref
unfolding adopt
add_list_root name r = let (v, ref) = add_list name (adopt r) in (some v, ref)
