-- ===== src/Json/Adding.antt =====
-- What `addValue`, `addObject` and `addList` of json/Object.cpp and json/List.cpp change.
use dumais_lib.Prelude.{
  ℕ, zero, suc, none, some, [], ◌∷◌, Text, if◌then◌else◌, ◌==◌, ◌≡◌, refl, ap, arith, subst,
  Bool-cases, inl, inr,
}
use dumais_lib.Json.Number.{text_eq, text_eq_sound}
use dumais_lib.Json.Node.{
  Node, list, object, Items, no_items, item, Members, find, insert, push_back, count_items, item_at,
  get_by_key, get_by_index,
}
use dumais_lib.Json.Edit.{generate_key, key_for, add_to_object, add_node}
use dumais_lib.Json.Keys.{find-insert, find-insert_other, generate_key-fresh}

pub find-insert_any :
    (k : Text) (v : Node) (ms : Members) (j : Text)
    → find j (insert k v ms) ≡ (if text_eq k j then some v else find j ms)
find-insert_any k v ms j = elim (Bool-cases (text_eq k j)) [
  | inl e ↦
      rw e (subst (λ i. find i (insert k v ms) ≡ some v) (text_eq_sound k j e) (find-insert k v ms))
  | inr ne ↦ rw ne (find-insert_other k j v ms ne)
]

-- A node that is added to an object under a name is found under that name, is what the operation
-- refers to, and leaves what is under the other keys.
pub add_node-named :
    (v : Node) (c : ℕ) (name : Text) (ms : Members)
    → let (o, r) = add_node v (c ∷ name) (object ms) in
      (r ≡ some v)
      × ((j : Text) → get_by_key j o ≡ (if text_eq (c ∷ name) j then some v else find j ms))
unfolding add_node key_for get_by_key
add_node-named v c name ms = (refl, find-insert_any (c ∷ name) v ms)

add_node-key :
    (v : Node) (ms : Members) (k : Text)
    → generate_key ms ≡ some k
    → add_node v [] (object ms) ≡ (object (insert k v ms), some v)
unfolding add_node key_for
add_node-key v ms k made = rw (add_to_object, key_for, made)

-- A node that is added to an object without a name gets a key that the object does not have yet;
-- what is under the other keys stays.
pub add_node-unnamed :
    (v : Node) (ms : Members)
    → (k : Text) × (add_node v [] (object ms) ≡ (object (insert k v ms), some v))
      × (find k ms ≡ none)
      × ((j : Text) → find j (insert k v ms) ≡ (if text_eq k j then some v else find j ms))
add_node-unnamed v ms =
    let (k, made, fresh) = generate_key-fresh ms in
    (k, add_node-key v ms k made, fresh, find-insert_any k v ms)

item_at-push_back :
    (xs : Items) (v : Node) (i : ℕ)
    → item_at (push_back xs v) i ≡ (if i == count_items xs then some v else item_at xs i)
unfolding item_at push_back count_items
item_at-push_back no_items v zero = refl
item_at-push_back no_items v (suc i) = ground arith
item_at-push_back (item w xs) v zero = ground arith
item_at-push_back (item w xs) v (suc i) = ground (arith, item_at-push_back xs v i)

count-push_back : (xs : Items) (v : Node) → count_items (push_back xs v) ≡ suc (count_items xs)
unfolding push_back count_items
count-push_back no_items v = refl
count-push_back (item w xs) v = ap suc (count-push_back xs v)

-- A node that is added to a list, whatever the name, is its last item, is what the operation
-- refers to, and leaves the items before it.
pub add_node-list :
    (v : Node) (name : Text) (xs : Items)
    → let (l, r) = add_node v name (list xs) in
      (l ≡ list (push_back xs v))
      × (r ≡ some v)
      × (count_items (push_back xs v) ≡ suc (count_items xs))
      × ((i : ℕ) → get_by_index i l ≡ (if i == count_items xs then some v else item_at xs i))
unfolding add_node get_by_index
add_node-list v name xs = (refl, refl, count-push_back xs v, item_at-push_back xs v)
