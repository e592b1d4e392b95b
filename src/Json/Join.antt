-- ===== src/Json/Join.antt =====
-- Members and items in the order in which the loops of `parseObject` and `parseList` add them.
use dumais_lib.Prelude.{none, ◌≡◌, refl, ap, arith, Text, false}
use dumais_lib.Json.Number.{text_eq, text_eq_comm}
use dumais_lib.Json.Node.{
  Node, Items, no_items, item, Members, no_members, member, push_back, insert, find,
}

-- Members behind those that were read before.
abbrev pub join : Members → Members → Members
join no_members ns = ns
join (member k v ms) ns = member k v (join ms ns)

abbrev pub join_items : Items → Items → Items
join_items no_items ys = ys
join_items (item v xs) ys = item v (join_items xs ys)

pub join_items-nil : (xs : Items) → join_items xs no_items ≡ xs
join_items-nil no_items = refl
join_items-nil (item v xs) = ap (item v) (join_items-nil xs)

pub join_items-push_back :
    (xs : Items) (v : Node) (ys : Items)
    → join_items (push_back xs v) ys ≡ join_items xs (item v ys)
unfolding push_back
join_items-push_back no_items v ys = refl
join_items-push_back (item w xs) v ys = ap (item w) (join_items-push_back xs v ys)

pub join-nil : (ms : Members) → join ms no_members ≡ ms
join-nil no_members = refl
join-nil (member k v ms) = ap (member k v) (join-nil ms)

pub join_assoc :
    (ms : Members) (k : Text) (v : Node) (ns : Members)
    → join (join ms (member k v no_members)) ns ≡ join ms (member k v ns)
join_assoc no_members k v ns = refl
join_assoc (member j w ms) k v ns = ap (member j w) (join_assoc ms k v ns)

-- None of the keys of `ms` is among those of `read`.
abbrev pub AreFresh : Members → Members → Type 0
AreFresh read no_members = Unit {0}
AreFresh read (member k v ms) = (find k read ≡ none) × AreFresh read ms

pub insert-fresh :
    (k : Text) (v : Node) (ms : Members)
    → find k ms ≡ none
    → insert k v ms ≡ join ms (member k v no_members)
unfolding find insert
insert-fresh k v no_members h = refl
insert-fresh k v (member j w ms) h = ground (arith, insert-fresh k v ms)

find-join-none :
    (j k : Text) (v : Node) (ms : Members)
    → find j ms ≡ none
    → text_eq k j ≡ false
    → find j (join ms (member k v no_members)) ≡ none
unfolding find
find-join-none j k v no_members h ne = rw ne
find-join-none j k v (member i w ms) h ne = ground (arith, find-join-none j k v ms)

find-member_none :
    (k j : Text) (w : Node) (ms : Members)
    → find k (member j w ms) ≡ none
    → (text_eq k j ≡ false) × (find k ms ≡ none)
unfolding find
find-member_none k j w ms h = ground (arith, text_eq_comm j k)

pub AreFresh-join :
    (read : Members) (k : Text) (v : Node) (ms : Members)
    → AreFresh read ms
    → find k ms ≡ none
    → AreFresh (join read (member k v no_members)) ms
AreFresh-join read k v no_members h new = tt
AreFresh-join read k v (member j w ms) (hj, hms) new =
    let (ne, later) = find-member_none k j w ms new in
    (find-join-none j k v read hj ne, AreFresh-join read k v ms hms later)
