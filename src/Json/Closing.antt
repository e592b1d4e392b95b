-- ===== src/Json/Closing.antt =====
-- `Parser::findClosingCurly` and `Parser::findClosingBracket` on printed text.
use dumais_lib.Prelude.{
  ℕ, suc, ◌+◌, true, false, [], ◌∷◌, ◌++◌, ◌≡◌, ◌≢◌, refl, ap, subst, ◌∙◌, arith, Text, length,
  append_assoc, length-append,
}
use dumais_lib.Json.Types.{SubType, illegal, string}
use dumais_lib.Json.Scan.{
  quote, quote_len, Found, at, close_scan, find_closing_curly, find_closing_bracket,
}
use dumais_lib.Json.Escape.{escape_string}
use dumais_lib.Json.Node.{
  Node, value, list, object, Items, no_items, item, Members, no_members, member,
}
use dumais_lib.Json.Print.{stringify_value, comma_items, comma_members}
use dumais_lib.Json.Quoted.{is_closed, quote_len-is_closed, is_closed-escape_string}
use dumais_lib.Json.Compact.{
  ArePlain, IsPrintableValue-IsUnquoted, IsPrintableValue, IsPrintable, ArePrintable,
  ArePrintableMembers, compact, compact_items, compact_members,
}

-- The two pairs of characters that the searches count.
data Shape : Type 0 where
  curly bracket : Shape

abbrev opening : Shape → ℕ
opening curly = b'{'
opening bracket = b'['

abbrev closing : Shape → ℕ
closing curly = b'}'
closing bracket = b']'

abbrev scan : Shape → Text → ℕ → ℕ → ℕ → Found
scan p = close_scan (opening p) (closing p)

-- The search passes the text `t` inside a pair of brackets, and comes out at the same level.
abbrev Passes : Text → Type 0
Passes t =
    (p : Shape) (r : Text) (level n : ℕ)
    → scan p (t ++ r) 0 (suc level) n ≡ scan p r 0 (suc level) (n + length t)

Passes-nil : Passes []
Passes-nil p r level n = ap (λ m. scan p r 0 (suc level) m) (omega arith)

Passes-append : (s t : Text) → Passes s → Passes t → Passes (s ++ t)
Passes-append s t hs ht p r level n =
    rw (append_assoc s t r, hs p (t ++ r) level n, ht p r level (n + length s))
      (ap (λ m. scan p r 0 (suc level) m) (omega (arith, length-append s t)))

scan-skip :
    (p : Shape) (k r : Text) (level n : ℕ)
    → scan p (k ++ quote ∷ r) (suc (length k)) level n ≡ scan p r 0 level (n + suc (length k))
unfolding close_scan
scan-skip p [] r level n = refl
scan-skip p (c ∷ k) r level n =
    scan-skip p k r level (n + 1) ∙ ap (λ m. scan p r 0 level m) (omega arith)

scan-quote :
    (p : Shape) (s : Text) (level n : ℕ)
    → scan p (quote ∷ s) 0 level n ≡ scan p s (quote_len s false) level (n + 1)
unfolding close_scan
scan-quote p s level n = refl

Passes-quoted : (k : Text) → is_closed k false ≡ true → Passes (quote ∷ (k ++ quote ∷ []))
Passes-quoted k h p r level n =
    rw
      (
        append_assoc k (quote ∷ []) r,
        scan-quote p (k ++ quote ∷ r) (suc level) n,
        quote_len-is_closed k r false h,
        scan-skip p k r (suc level) (n + 1),
      )
      (ap (λ m. scan p r 0 (suc level) m) (omega (arith, length-append k (quote ∷ []))))

-- A character that is no bracket of the shape.
Passes-char :
    (c : ℕ) → c ≢ 0 → c ≢ quote → c ≢ b'{' → c ≢ b'}' → c ≢ b'[' → c ≢ b']' → Passes (c ∷ [])
unfolding close_scan
Passes-char c h0 hq h1 h2 h3 h4 curly r level n = ground arith
Passes-char c h0 hq h1 h2 h3 h4 bracket r level n = ground arith

Passes-ArePlain : (s : Text) → ArePlain s → Passes s
Passes-ArePlain [] h = Passes-nil
Passes-ArePlain (c ∷ s) (hc, hs) =
    Passes-append (c ∷ []) s
      (Passes-char c (ground arith) (ground arith) (ground arith) (ground arith) (ground arith)
        (ground arith))
      (Passes-ArePlain s hs)

scan-opening :
    (p : Shape) (s : Text) (level n : ℕ)
    → scan p (opening p ∷ s) 0 (suc level) n ≡ scan p s 0 (suc (suc level)) (n + 1)
unfolding close_scan
scan-opening curly s level n = ground arith
scan-opening bracket s level n = ground arith

scan-closing :
    (p : Shape) (s : Text) (level n : ℕ)
    → scan p (closing p ∷ s) 0 (suc (suc level)) n ≡ scan p s 0 (suc level) (n + 1)
unfolding close_scan
scan-closing curly s level n = ground arith
scan-closing bracket s level n = ground arith

-- The last closing character ends the search.
scan-last : (p : Shape) (s : Text) (n : ℕ) → scan p (closing p ∷ s) 0 1 n ≡ at (n + 1)
unfolding close_scan
scan-last curly s n = refl
scan-last bracket s n = refl

-- A search for one shape passes the characters of the other.
scan-other :
    (p q : Shape) (s : Text) (level n : ℕ)
    → p ≢ q
    → (scan p (opening q ∷ s) 0 (suc level) n ≡ scan p s 0 (suc level) (n + 1))
      × (scan p (closing q ∷ s) 0 (suc level) n ≡ scan p s 0 (suc level) (n + 1))
unfolding close_scan
scan-other curly curly s level n h = absurd (h refl)
scan-other curly bracket s level n h = (ground arith, ground arith)
scan-other bracket curly s level n h = (ground arith, ground arith)
scan-other bracket bracket s level n h = absurd (h refl)

-- The search comes to its end behind a text that it passes.
scan_end :
    (p : Shape) (t r : Text)
    → Passes t
    → scan p ((t ++ closing p ∷ []) ++ r) 0 1 1 ≡ at (suc (length (t ++ closing p ∷ [])))
scan_end p t r h =
    rw (append_assoc t (closing p ∷ []) r, h p (closing p ∷ r) 0 1, scan-last p r (1 + length t))
      (ap at (omega (arith, length-append t (closing p ∷ []))))

Passes-same :
    (p : Shape) (t : Text) (r : Text) (level n : ℕ)
    → Passes t
    → scan p (opening p ∷ (t ++ closing p ∷ []) ++ r) 0 (suc level) n
      ≡ scan p r 0 (suc level) (n + suc (length (t ++ closing p ∷ [])))
Passes-same p t r level n h =
    rw
      (
        append_assoc t (closing p ∷ []) r,
        scan-opening p (t ++ closing p ∷ r) level n,
        h p (closing p ∷ r) (suc level) (n + 1),
        scan-closing p r level (n + 1 + length t),
      )
      (ap (λ m. scan p r 0 (suc level) m) (omega (arith, length-append t (closing p ∷ []))))

Passes-other :
    (p q : Shape) (t : Text) (r : Text) (level n : ℕ)
    → p ≢ q
    → Passes t
    → scan p (opening q ∷ (t ++ closing q ∷ []) ++ r) 0 (suc level) n
      ≡ scan p r 0 (suc level) (n + suc (length (t ++ closing q ∷ [])))
Passes-other p q t r level n ne h =
    rw
      (
        append_assoc t (closing q ∷ []) r,
        (scan-other p q (t ++ closing q ∷ r) level n ne).0,
        h p (closing q ∷ r) level (n + 1),
        (scan-other p q r level (n + 1 + length t) ne).1,
      )
      (ap (λ m. scan p r 0 (suc level) m) (omega (arith, length-append t (closing q ∷ []))))

-- A text between brackets of either shape is passed by both searches.
Passes-nested : (q : Shape) (t : Text) → Passes t → Passes (opening q ∷ (t ++ closing q ∷ []))
Passes-nested curly t h curly r level n = Passes-same curly t r level n h
Passes-nested curly t h bracket r level n = Passes-other bracket curly t r level n (λ e. cc) h
Passes-nested bracket t h curly r level n = Passes-other curly bracket t r level n (λ e. cc) h
Passes-nested bracket t h bracket r level n = Passes-same bracket t r level n h

Passes-comma : Passes (b',' ∷ [])
Passes-comma =
    Passes-char b',' (omega arith) (omega arith) (omega arith) (omega arith) (omega arith)
      (omega arith)

Passes-colon : Passes (b':' ∷ [])
Passes-colon =
    Passes-char b':' (omega arith) (omega arith) (omega arith) (omega arith) (omega arith)
      (omega arith)

Passes-comma_items : (xs : Items) → Passes (comma_items xs)
Passes-comma_items no_items = Passes-nil
Passes-comma_items (item v xs) = Passes-comma

Passes-comma_members : (ms : Members) → Passes (comma_members ms)
Passes-comma_members no_members = Passes-nil
Passes-comma_members (member k v ms) = Passes-comma

Passes-stringify_value :
    (s : Text) (t : SubType) → IsPrintableValue s t → Passes (stringify_value s t)
unfolding stringify_value
Passes-stringify_value s string h = Passes-quoted (escape_string s) (is_closed-escape_string s h)
Passes-stringify_value s illegal h = absurd h
Passes-stringify_value s t h = Passes-ArePlain s (IsPrintableValue-IsUnquoted s t (λ e. cc) h).plain

Passes-key :
    (k t : Text) → is_closed k false ≡ true → Passes t → Passes (quote ∷ (k ++ (quote ∷ b':' ∷ t)))
Passes-key k t hk ht = subst Passes (ap (λ u. quote ∷ u) (append_assoc k (quote ∷ []) (b':' ∷ t))) (
    Passes-append (quote ∷ (k ++ quote ∷ [])) (b':' ∷ t) (Passes-quoted k hk)
      (Passes-append (b':' ∷ []) t Passes-colon ht))

mutual
  unfolding compact

  Passes-compact : (v : Node) → IsPrintable v → Passes (compact v)
  Passes-compact (value s t) h = Passes-stringify_value s t h
  Passes-compact (list xs) h = Passes-nested bracket (compact_items xs) (Passes-compact_items xs h)
  Passes-compact (object ms) h =
      Passes-nested curly (compact_members ms) (Passes-compact_members ms h)

  Passes-compact_items : (xs : Items) → ArePrintable xs → Passes (compact_items xs)
  Passes-compact_items no_items h = Passes-nil
  Passes-compact_items (item v xs) (hv, hxs) =
      Passes-append (compact v) (comma_items xs ++ compact_items xs) (Passes-compact v hv) (
        Passes-append (comma_items xs) (compact_items xs) (Passes-comma_items xs)
          (Passes-compact_items xs hxs))

  Passes-compact_members : (ms : Members) → ArePrintableMembers ms → Passes (compact_members ms)
  Passes-compact_members no_members h = Passes-nil
  Passes-compact_members (member k v ms) (hk, new, hv, hms) =
      Passes-key k (compact v ++ (comma_members ms ++ compact_members ms)) hk.1 (
        Passes-append (compact v) (comma_members ms ++ compact_members ms) (Passes-compact v hv) (
          Passes-append (comma_members ms) (compact_members ms) (Passes-comma_members ms)
            (Passes-compact_members ms hms)))

-- The search finds the closing brace of a printed object, whatever follows, if the object's
-- members are printable.
pub find_closing_curly-compact :
    (ms : Members) (r : Text)
    → ArePrintableMembers ms
    → find_closing_curly (compact (object ms) ++ r) ≡ at (length (compact (object ms)))
unfolding find_closing_curly compact
find_closing_curly-compact ms r h =
    scan_end curly (compact_members ms) r (Passes-compact_members ms h)

-- The search finds the closing bracket of a printed list, whatever follows, if the list's items
-- are printable.
pub find_closing_bracket-compact :
    (xs : Items) (r : Text)
    → ArePrintable xs
    → find_closing_bracket (compact (list xs) ++ r) ≡ at (length (compact (list xs)))
unfolding find_closing_bracket compact
find_closing_bracket-compact xs r h =
    scan_end bracket (compact_items xs) r (Passes-compact_items xs h)
