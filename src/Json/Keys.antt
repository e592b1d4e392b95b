-- ===== src/Json/Keys.antt =====
-- The maps of json/Object.cpp: what `mMembers[k] = v` changes, and the keys that `generateKey` makes.
use dumais_lib.Prelude.{
  ℕ, zero, suc, ◌+◌, ◌≤◌, ◌<◌, false, Option, none, some, Text, if◌then◌else◌, ◌≡◌, ◌≢◌, refl, ap,
  sym, ◌∙◌, arith, drop, ◌⊎◌, Bool-cases, inl, inr,
}
use dumais_lib.Json.Number.{text_eq, text_eq_sound, text_eq_refl}
use dumais_lib.Json.Decimal.{decimal, number_from, number_from-decimal}
use dumais_lib.Json.Node.{Node, Members, no_members, member, find, insert, count_members}
use dumais_lib.Json.Edit.{key_number, search_key, generate_key}

-- After `mMembers[k] = v` the key has the value.
pub find-insert : (k : Text) (v : Node) (ms : Members) → find k (insert k v ms) ≡ some v
unfolding find insert
find-insert k v no_members = rw (text_eq_refl k)
find-insert k v (member j w ms) = elim (Bool-cases (text_eq j k)) [
  | inl e ↦ rw e (rw e)
  | inr ne ↦ rw ne (rw ne (find-insert k v ms))
]

-- The other keys keep theirs.
pub find-insert_other :
    (k j : Text) (v : Node) (ms : Members)
    → text_eq k j ≡ false
    → find j (insert k v ms) ≡ find j ms
unfolding find insert
find-insert_other k j v no_members ne = rw ne
find-insert_other k j v (member i w ms) ne = elim (Bool-cases (text_eq i k)) [
  | inl e ↦ let other : text_eq i j ≡ false = rw (text_eq_sound i k e) ne in rw (e, other)
  | inr differs ↦ rw (differs, find-insert_other k j v ms ne)
]

pub text_eq_of_ne : (s t : Text) → s ≢ t → text_eq s t ≡ false
text_eq_of_ne s t ne = elim (Bool-cases (text_eq s t)) [
  | inl e ↦ absurd (ne (text_eq_sound s t e))
  | inr differs ↦ differs
]

key_number-ne : (i j : ℕ) → i < j → key_number i ≢ key_number j
key_number-ne i j h e = absurd (omega (arith, same))
  where
    same : i ≡ j
    same =
        sym (number_from-decimal i) ∙ ap (λ s. number_from 0 (drop 3 s)) e ∙ number_from-decimal j

unfoldable remove : Text → Members → Members
remove k no_members = no_members
remove k (member j w ms) = if text_eq j k then ms else member j w (remove k ms)

count-remove :
    (k : Text) (v : Node) (ms : Members)
    → find k ms ≡ some v
    → suc (count_members (remove k ms)) ≡ count_members ms
unfolding find remove count_members
count-remove k v no_members h = cc
count-remove k v (member j w ms) h = elim (Bool-cases (text_eq j k)) [
  | inl e ↦ rw e
  | inr differs ↦ rw (differs, count-remove k v ms (rw differs at h))
]

find-remove_other :
    (k j : Text) (ms : Members) → text_eq k j ≡ false → find j (remove k ms) ≡ find j ms
unfolding find remove
find-remove_other k j no_members ne = refl
find-remove_other k j (member i w ms) ne = elim (Bool-cases (text_eq i k)) [
  | inl e ↦ let other : text_eq i j ≡ false = rw (text_eq_sound i k e) ne in rw (e, other)
  | inr differs ↦ rw (differs, find-remove_other k j ms ne)
]

Option-cases : (o : Option Node) → (o ≡ none) ⊎ ((v : Node) × (o ≡ some v))
Option-cases none = inl refl
Option-cases (some v) = inr (v, refl)

search_key-free :
    (f i : ℕ) (ms : Members)
    → find (key_number i) ms ≡ none
    → search_key (suc f) i ms ≡ some (key_number i)
unfolding search_key decimal
search_key-free f i ms free = rw (search_key, free)

search_key-taken :
    (f i : ℕ) (ms : Members) (v : Node)
    → find (key_number i) ms ≡ some v
    → search_key (suc f) i ms ≡ search_key f (i + 1) ms
unfolding search_key
search_key-taken f i ms v taken = rw (search_key, taken)

-- `left` are members of `ms` with all the keys that are still to be tried.
search_key-left :
    (f i : ℕ) (ms left : Members)
    → ((j : ℕ) → i ≤ j → find (key_number j) left ≡ find (key_number j) ms)
    → count_members left < f
    → (k : Text) × (search_key f i ms ≡ some k) × (find k ms ≡ none)
unfolding search_key
search_key-left zero i ms left same few = absurd (omega arith)
search_key-left (suc f) i ms left same few = elim (Option-cases (find (key_number i) ms)) [
  | inl free ↦ (key_number i, search_key-free f i ms free, free)
  | inr (v, taken) ↦
      let left' = remove (key_number i) left in
      let fewer = count-remove (key_number i) v left (same i (omega arith) ∙ taken) in
      let (k, found, free) =
        search_key-left f (i + 1) ms left'
          (λ j le.
            find-remove_other (key_number i) (key_number j) left
              (text_eq_of_ne _ _ (key_number-ne i j (omega arith)))
            ∙ same j (omega arith))
          (omega (arith, fewer)) in
      (k, search_key-taken f i ms v taken ∙ found, free)
]

-- `generateKey` ends, with a key that the object does not have.
pub generate_key-fresh :
    (ms : Members) → (k : Text) × (generate_key ms ≡ some k) × (find k ms ≡ none)
unfolding generate_key
generate_key-fresh ms =
    search_key-left (suc (count_members ms)) (count_members ms) ms ms (λ j le. refl) (omega arith)
