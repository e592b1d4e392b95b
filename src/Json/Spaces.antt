-- ===== src/Json/Spaces.antt =====
-- `Parser::removeSpaces` on printed text: the layout goes, and all else stays.
use dumais_lib.Prelude.{
  ℕ, suc, true, false, some, none, [], ◌∷◌, ◌++◌, ◌≡◌, refl, ap, sym, ◌∙◌, arith, Text, length,
  replicate, ◌==◌, append_assoc, append-nil, zero, ◌-◌,
}
use dumais_lib.Json.Types.{SubType, illegal, string}
use dumais_lib.Json.Scan.{quote, quote_len, is_space, remove_spaces_from, remove_spaces}
use dumais_lib.Json.Escape.{escape_string}
use dumais_lib.Json.Node.{
  Node, value, list, object, Items, no_items, item, Members, no_members, member,
}
use dumais_lib.Json.Print.{
  Level, deeper, new_line, tabs, outer_tabs, stringify_value, comma_items, comma_members, stringify,
  stringify_items, stringify_members,
}
use dumais_lib.Json.Quoted.{is_closed, quote_len-is_closed, is_closed-escape_string}
use dumais_lib.Json.Compact.{
  ArePlain, IsPrintableValue-IsUnquoted, IsPrintableValue, IsPrintable, ArePrintable,
  ArePrintableMembers, compact, compact_items, compact_members,
}

remove-copy :
    (k r : Text)
    → remove_spaces_from (k ++ quote ∷ r) (suc (length k)) ≡ k ++ quote ∷ remove_spaces_from r 0
unfolding remove_spaces_from
remove-copy [] r = refl
remove-copy (c ∷ k) r = ap (λ u. c ∷ u) (remove-copy k r)

remove-quote :
    (s : Text) → remove_spaces_from (quote ∷ s) 0 ≡ quote ∷ remove_spaces_from s (quote_len s false)
unfolding remove_spaces_from
remove-quote s = refl

-- A quoted text is copied, its spaces included.
remove-quoted :
    (k r : Text)
    → is_closed k false ≡ true
    → remove_spaces_from (quote ∷ (k ++ quote ∷ r)) 0
      ≡ quote ∷ (k ++ quote ∷ remove_spaces_from r 0)
remove-quoted k r h =
    rw (remove-quote (k ++ quote ∷ r), quote_len-is_closed k r false h)
      (ap (λ u. quote ∷ u) (remove-copy k r))

remove-ArePlain :
    (s r : Text) → ArePlain s → remove_spaces_from (s ++ r) 0 ≡ s ++ remove_spaces_from r 0
unfolding remove_spaces_from
remove-ArePlain [] r h = refl
remove-ArePlain (c ∷ s) r (hc, hs) = ground (arith, remove-ArePlain s r hs)

remove-replicate :
    (n : ℕ) (r : Text) → remove_spaces_from (replicate n 9 ++ r) 0 ≡ remove_spaces_from r 0
unfolding remove_spaces_from
remove-replicate zero r = refl
remove-replicate (suc n) r = remove-replicate n r

remove-tabs : (l : Level) (r : Text) → remove_spaces_from (tabs l ++ r) 0 ≡ remove_spaces_from r 0
remove-tabs none r = refl
remove-tabs (some n) r = remove-replicate n r

remove-outer_tabs :
    (l : Level) (r : Text) → remove_spaces_from (outer_tabs l ++ r) 0 ≡ remove_spaces_from r 0
remove-outer_tabs none r = refl
remove-outer_tabs (some n) r = remove-replicate (n - 1) r

remove-new_line :
    (l : Level) (r : Text) → remove_spaces_from (new_line l ++ r) 0 ≡ remove_spaces_from r 0
unfolding remove_spaces_from
remove-new_line none r = refl
remove-new_line (some n) r = refl

remove-comma_items :
    (xs : Items) (r : Text)
    → remove_spaces_from (comma_items xs ++ r) 0 ≡ comma_items xs ++ remove_spaces_from r 0
unfolding remove_spaces_from
remove-comma_items no_items r = refl
remove-comma_items (item v xs) r = refl

remove-comma_members :
    (ms : Members) (r : Text)
    → remove_spaces_from (comma_members ms ++ r) 0 ≡ comma_members ms ++ remove_spaces_from r 0
unfolding remove_spaces_from
remove-comma_members no_members r = refl
remove-comma_members (member k v ms) r = refl

remove-stringify_value :
    (s : Text) (t : SubType) (r : Text)
    → IsPrintableValue s t
    → remove_spaces_from (stringify_value s t ++ r) 0
      ≡ stringify_value s t ++ remove_spaces_from r 0
unfolding stringify_value
remove-stringify_value s string r h =
    simp append_assoc (remove-quoted (escape_string s) r (is_closed-escape_string s h))
remove-stringify_value s illegal r h = absurd h
remove-stringify_value s t r h =
    remove-ArePlain s r (IsPrintableValue-IsUnquoted s t (λ e. cc) h).plain

-- A bracket or a brace, and what stands behind a key, lose nothing but the spaces.
remove-colon :
    (r : Text) → remove_spaces_from (b' ' ∷ b':' ∷ b' ' ∷ r) 0 ≡ b':' ∷ remove_spaces_from r 0
unfolding remove_spaces_from
remove-colon r = refl

remove-mark :
    (c : ℕ) (r : Text)
    → (c == quote) ≡ false
    → is_space c ≡ false
    → remove_spaces_from (c ∷ r) 0 ≡ c ∷ remove_spaces_from r 0
unfolding remove_spaces_from
remove-mark c r h k = rw (h, k)

mutual
  unfolding stringify compact is_space

  remove-stringify :
      (v : Node) (l : Level) (r : Text)
      → IsPrintable v
      → remove_spaces_from (stringify v l ++ r) 0 ≡ compact v ++ remove_spaces_from r 0
  remove-stringify (value s t) l r h = remove-stringify_value s t r h
  remove-stringify (list xs) l r h = simp (
    append_assoc,
    remove-mark,
    remove-new_line,
    remove-outer_tabs,
    remove-stringify_items xs l _ h,
  )
  remove-stringify (object ms) l r h = simp (
    append_assoc,
    remove-mark,
    remove-new_line,
    remove-outer_tabs,
    remove-stringify_members ms l _ h,
  )

  remove-stringify_items :
      (xs : Items) (l : Level) (r : Text)
      → ArePrintable xs
      → remove_spaces_from (stringify_items xs l ++ r) 0
        ≡ compact_items xs ++ remove_spaces_from r 0
  remove-stringify_items no_items l r h = refl
  remove-stringify_items (item v xs) l r (hv, hxs) = simp (
    append_assoc,
    remove-tabs,
    remove-comma_items,
    remove-new_line,
    remove-stringify v (deeper l) _ hv,
    remove-stringify_items xs l r hxs,
  )

  remove-stringify_members :
      (ms : Members) (l : Level) (r : Text)
      → ArePrintableMembers ms
      → remove_spaces_from (stringify_members ms l ++ r) 0
        ≡ compact_members ms ++ remove_spaces_from r 0
  remove-stringify_members no_members l r h = refl
  remove-stringify_members (member k v ms) l r (hk, new, hv, hms) = simp (
    append_assoc,
    remove-tabs,
    remove-comma_members,
    remove-new_line,
    remove-colon,
    λ (r' : Text). remove-quoted k r' hk.1,
    remove-stringify v (deeper l) _ hv,
    remove-stringify_members ms l r hms,
  )

-- Removing the spaces of a printed tree gives its compact text, at every level of indentation,
-- if the tree is printable.
pub remove_spaces-stringify :
    (v : Node) (l : Level) → IsPrintable v → remove_spaces (stringify v l) ≡ compact v
unfolding remove_spaces remove_spaces_from
remove_spaces-stringify v l h =
    ap (λ t. remove_spaces_from t 0) (sym (append-nil (stringify v l)))
    ∙ remove-stringify v l [] h
    ∙ append-nil (compact v)
