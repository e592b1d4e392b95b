-- ===== src/Json/Node.antt =====
-- The tree of json/Object.h, json/List.h and json/Value.h, and the classes' read operations.
use dumais_lib.Prelude.{
  ℕ, suc, Option, none, some, List, [], ◌∷◌, Text, codes, if◌then◌else◌, zero, map,
}
use dumais_lib.Json.Types.{SubType, bool}
use dumais_lib.Json.Number.{text_eq, to_lower}
use dumais_lib.Json.Escape.{unescape_string}

-- A `Value`, a `List` or an `Object`. The members of an object stand in the order in which its
-- `unordered_map` is iterated.
mutual
  pub data Node : Type 0 where
    value : Text → SubType → Node
    list : Items → Node
    object : Members → Node

  pub data Items : Type 0 where
    no_items : Items
    item : Node → Items → Items

  pub data Members : Type 0 where
    no_members : Members
    member : Text → Node → Members → Members

-- `mMembers.find`.
unfoldable pub find : Text → Members → Option Node
unfolding text_eq
find k no_members = none
find k (member j v ms) = if text_eq j k then some v else find k ms

-- `mMembers[k] = v`: a key that is there keeps its place.
unfoldable pub insert : Text → Node → Members → Members
unfolding text_eq
insert k v no_members = member k v no_members
insert k v (member j w ms) = if text_eq j k then member j v ms else member j w (insert k v ms)

-- `mMembers.push_back`.
unfoldable pub push_back : Items → Node → Items
push_back no_items v = item v no_items
push_back (item w xs) v = item w (push_back xs v)

-- `mMembers.size()` of an `Object` and of a `List`.
unfoldable pub count_members : Members → ℕ
count_members no_members = 0
count_members (member k v ms) = suc (count_members ms)

unfoldable pub count_items : Items → ℕ
count_items no_items = 0
count_items (item v xs) = suc (count_items xs)

-- A reference to a node of the tree, or to the static `mInvalid`.
abbrev pub Ref : Type 0
Ref = Option Node

-- `Object::getByKey`; a `List` and a `Value` have no keys.
unfoldable pub get_by_key : Text → Node → Ref
unfolding find
get_by_key k (object ms) = find k ms
get_by_key k _ = none

unfoldable pub item_at : Items → ℕ → Ref
item_at no_items i = none
item_at (item v xs) zero = some v
item_at (item v xs) (suc i) = item_at xs i

-- `List::getByIndex`; an `Object` and a `Value` have no indices.
unfoldable pub get_by_index : ℕ → Node → Ref
unfolding item_at
get_by_index i (list xs) = item_at xs i
get_by_index i _ = none

-- `Object::getKeys`.
unfoldable pub member_keys : Members → List Text
member_keys no_members = []
member_keys (member k v ms) = k ∷ member_keys ms

-- `Value::toString`, `List::toString` and `Object::toString`.
unfoldable pub to_string : Node → Text
to_string (value s t) = s
to_string (list xs) = codes "{list}"
to_string (object ms) = codes "{object}"

-- The constructor `Value(std::string, ValueSubType)`.
unfoldable pub new_value : Text → SubType → Node
new_value s bool = value (map to_lower s) bool
new_value s t = value (unescape_string s) t

-- The loops of `Object::copy` and of `List::copy`, each on the copies of its nodes.
unfoldable mutual
  pub copy : Node → Node
  copy (value s t) = value s t
  copy (list xs) = list (copy_items xs)
  copy (object ms) = object (copy_members ms)

  pub copy_items : Items → Items
  copy_items no_items = no_items
  copy_items (item v xs) = item (copy v) (copy_items xs)

  pub copy_members : Members → Members
  copy_members no_members = no_members
  copy_members (member k v ms) = member k (copy v) (copy_members ms)
