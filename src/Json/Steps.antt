-- ===== src/Json/Steps.antt =====
-- One round of the loops of `parseObject` (json/Object.cpp) and `parseList` (json/List.cpp) on a printed node.
use dumais_lib.Prelude.{
  ℕ, suc, ◌+◌, none, some, [], ◌∷◌, ◌++◌, ◌≡◌, ◌≢◌, refl, ap, ap₂, sym, ◌∙◌, arith, Text, length,
  length-append, append_assoc, false,
}
use dumais_lib.Json.Types.{SubType, illegal, string, Kind}
use dumais_lib.Json.Scan.{quote, is_naked, parse_string}
use dumais_lib.Json.Escape.{unescape-escape}
use dumais_lib.Json.Property.{get_value, get_pair}
use dumais_lib.Json.Node.{
  Node, value, list, object, Items, no_items, item, Members, no_members, member, new_value,
  push_back, find,
}
use dumais_lib.Json.Print.{stringify_value, comma_items, comma_members}
use dumais_lib.Json.Parse.{done, parse_node, parse_members, parse_items, goes_on, sub_type_of}
use dumais_lib.Json.Compact.{
  IsKey, IsPrintableValue, IsPrintableValue-IsUnquoted, IsPrintable, compact, compact_items,
  compact_members,
}
use dumais_lib.Json.Values.{
  property_of, property_of_value, Ends, get_value-compact, get_pair-compact, pair_of_member,
}
use dumais_lib.Json.Join.{join, join_items, join_items-nil, insert-fresh}
use dumais_lib.Json.Rounds.{
  goes_on-comma, goes_on-end, items_round, members_round, size-property_of,
}

-- The nested calls that a printed node takes.
abbrev mutual
  pub calls : Node → ℕ
  calls (value s t) = 1
  calls (list xs) = 2 + calls_items xs
  calls (object ms) = 2 + calls_members ms

  pub calls_items : Items → ℕ
  calls_items no_items = 2
  calls_items (item v xs) = 1 + (calls v + calls_items xs)

  pub calls_members : Members → ℕ
  calls_members no_members = 2
  calls_members (member k v ms) = 1 + (calls v + calls_members ms)

-- The constructor of `Value` gives back the value that was printed.
new_value-printed :
    (s : Text) (t : SubType)
    → IsPrintableValue s t
    → (property_of_value s t).kind ≡ Kind.value
      × (new_value (property_of_value s t).text (sub_type_of (property_of_value s t).sub_type)
          ≡ value s t)
new_value-printed s string h =
    (refl, unfold new_value in ap (λ x. value x string) (unescape-escape s))
new_value-printed s illegal h = absurd h
new_value-printed s t h = (refl, (IsPrintableValue-IsUnquoted s t (λ q. cc) h).built)

Ends-mark : (c : ℕ) (r : Text) → is_naked c ≡ false → Ends (c ∷ r)
Ends-mark c r h = h

-- The closing character alone ends the loops.
pub items_end :
    (f : ℕ) (read : Items)
    → parse_items (suc (suc f)) (compact_items no_items ++ b']' ∷ []) read ≡ done read
unfolding parse_items get_value is_naked compact
items_end f read = refl

pub members_end :
    (f : ℕ) (read : Members)
    → parse_members (suc (suc f)) (compact_members no_members ++ b'}' ∷ []) read ≡ done read
unfolding parse_members get_pair parse_string compact
members_end f read = refl

pub compact-ne-nil : (v : Node) → IsPrintable v → compact v ≢ []
unfolding compact stringify_value
compact-ne-nil (value s string) h = λ e. cc
compact-ne-nil (value s illegal) h = absurd h
compact-ne-nil (value s t) h = (IsPrintableValue-IsUnquoted s t (λ q. cc) h).filled
compact-ne-nil (list xs) h = λ e. cc
compact-ne-nil (object ms) h = λ e. cc

append-ne-nil : (s t : Text) → s ≢ [] → s ++ t ≢ []
append-ne-nil [] t h = absurd (h refl)
append-ne-nil (c ∷ s) t h = λ e. cc

pub parse_value :
    (f : ℕ) (s : Text) (t : SubType)
    → IsPrintableValue s t
    → parse_node (suc f) (property_of_value s t).kind (property_of_value s t)
      ≡ done (some (value s t))
parse_value f s t h = let (k, e) = new_value-printed s t h in unfold parse_node in rw (k, e)

items_text :
    (v : Node) (xs : Items) (r : Text)
    → compact_items (item v xs) ++ r ≡ compact v ++ (comma_items xs ++ (compact_items xs ++ r))
unfolding compact
items_text v xs r = simp append_assoc

members_text :
    (k : Text) (v : Node) (ms : Members) (r : Text)
    → compact_members (member k v ms) ++ r
      ≡ quote
        ∷ (k ++ (quote ∷ b':' ∷ (compact v ++ (comma_members ms ++ (compact_members ms ++ r)))))
unfolding compact
members_text k v ms r = simp append_assoc

-- One element of a printed list, if its node and the rest of the list are read.
pub items_step :
    (v : Node) (xs : Items) (f : ℕ) (read : Items)
    → IsPrintable v
    → parse_node f (property_of v).kind (property_of v) ≡ done (some v)
    → (parse_items f (compact_items xs ++ b']' ∷ []) (push_back read v)
        ≡ done (join_items (push_back read v) xs))
    → parse_items (suc f) (compact_items (item v xs) ++ b']' ∷ []) read
      ≡ done (join_items (push_back read v) xs)
unfolding compact
items_step v no_items f read hv hn hrest =
    ap (λ t. parse_items (suc f) t read) (items_text v no_items (b']' ∷ []))
    ∙ (items_round f (compact v ++ b']' ∷ []) read (property_of v) v
          (append-ne-nil (compact v) (b']' ∷ []) (compact-ne-nil v hv))
          (get_value-compact v (b']' ∷ []) hv (Ends-mark b']' [] (unfold is_naked in refl))) hn).0
        (rw (size-property_of v hv) (goes_on-end (compact v) [] b']' refl))
    ∙ ap done (sym (join_items-nil (push_back read v)))
items_step v (item w xs) f read hv hn hrest =
    let r = compact_items (item w xs) ++ b']' ∷ [] in
    ap (λ t. parse_items (suc f) t read) (items_text v (item w xs) (b']' ∷ []))
    ∙ (items_round f (compact v ++ b',' ∷ r) read (property_of v) v
          (append-ne-nil (compact v) (b',' ∷ r) (compact-ne-nil v hv))
          (get_value-compact v (b',' ∷ r) hv (Ends-mark b',' r (unfold is_naked in refl))) hn).1
        r (rw (size-property_of v hv) (goes_on-comma (compact v) r))
    ∙ hrest

-- What follows a member stands where the loop looks.
member_text :
    (k : Text) (v : Node) (r : Text)
    → quote ∷ (k ++ (quote ∷ b':' ∷ (compact v ++ r)))
      ≡ (quote ∷ (k ++ (quote ∷ b':' ∷ compact v))) ++ r
member_text k v r = simp append_assoc

member_size :
    (k : Text) (v : Node)
    → IsPrintable v
    → (pair_of_member k v).size ≡ length (quote ∷ (k ++ (quote ∷ b':' ∷ compact v)))
member_size k v h = omega (arith, size-property_of v h, length-append k (quote ∷ b':' ∷ compact v))

goes_on_member :
    (k : Text) (v : Node) (r : Text)
    → IsPrintable v
    → goes_on (quote ∷ (k ++ (quote ∷ b':' ∷ (compact v ++ r)))) (pair_of_member k v).size
      ≡ goes_on
          ((quote ∷ (k ++ (quote ∷ b':' ∷ compact v))) ++ r)
          (length (quote ∷ (k ++ (quote ∷ b':' ∷ compact v))))
goes_on_member k v r h = ap₂ goes_on (member_text k v r) (member_size k v h)

pub members_step :
    (k : Text) (v : Node) (ms : Members) (f : ℕ) (read : Members)
    → IsKey k
    → IsPrintable v
    → find k read ≡ none
    → parse_node f (property_of v).kind (property_of v) ≡ done (some v)
    → (parse_members f (compact_members ms ++ b'}' ∷ []) (join read (member k v no_members))
        ≡ done (join read (member k v ms)))
    → parse_members (suc f) (compact_members (member k v ms) ++ b'}' ∷ []) read
      ≡ done (join read (member k v ms))
unfolding compact
members_step k v no_members f read hk hv new hn hrest =
    let r : Text = b'}' ∷ [] in
    ap (λ t. parse_members (suc f) t read) (members_text k v no_members r)
    ∙ (members_round f (quote ∷ (k ++ (quote ∷ b':' ∷ (compact v ++ r)))) read (pair_of_member k v)
          v (λ e. cc) (get_pair-compact k v r hk hv (Ends-mark b'}' [] (unfold is_naked in refl)))
          hn).0
        (goes_on_member k v r hv
          ∙ goes_on-end (quote ∷ (k ++ (quote ∷ b':' ∷ compact v))) [] b'}' refl)
    ∙ ap done (insert-fresh k v read new)
members_step k v (member j w ms) f read hk hv new hn hrest =
    let r = compact_members (member j w ms) ++ b'}' ∷ [] in
    ap (λ t. parse_members (suc f) t read) (members_text k v (member j w ms) (b'}' ∷ []))
    ∙ (members_round f (quote ∷ (k ++ (quote ∷ b':' ∷ (compact v ++ b',' ∷ r)))) read
          (pair_of_member k v) v (λ e. cc)
          (get_pair-compact k v (b',' ∷ r) hk hv (Ends-mark b',' r (unfold is_naked in refl))) hn).1
        r
        (goes_on_member k v (b',' ∷ r) hv
          ∙ goes_on-comma (quote ∷ (k ++ (quote ∷ b':' ∷ compact v))) r)
    ∙ rw (insert-fresh k v read new) hrest
