-- ===== src/Json/Values.antt =====
-- `Parser::getValue` and `Parser::getPair` on printed text.
use dumais_lib.Prelude.{
  ℕ, suc, ◌+◌, ◌-◌, true, false, none, some, [], ◌∷◌, ◌++◌, ◌≡◌, ◌≢◌, refl, ap, ◌∙◌, arith, Text,
  length, take, drop, ◌==◌, append_assoc, ltb, take-append, Bool-cases, inl, inr,
}
use dumais_lib.Json.Types.{SubType, illegal, string, Kind}
use dumais_lib.Json.Scan.{quote, is_naked, parse_string, parse_naked_value}
use dumais_lib.Json.Escape.{escape_char, escape_string}
use dumais_lib.Json.Number.{validate_naked_value}
use dumais_lib.Json.Property.{
  ok, Property, Pair, naked_property, get_value, c_string, byte_at, get_pair,
}
use dumais_lib.Json.Node.{
  Node, value, list, object, Items, no_items, item, Members, no_members, member,
}
use dumais_lib.Json.Print.{stringify_value, comma_items, comma_members}
use dumais_lib.Json.Quoted.{
  is_closed, quote_len-is_closed, is_closed-escape_string, HasNoNul, HasNoNul-append,
  c_string-append, is_closed-HasNoNul,
}
use dumais_lib.Json.Compact.{
  IsKey, IsPlain, ArePlain, IsUnquoted, IsPrintableValue-IsUnquoted, IsPrintableValue, IsPrintable,
  ArePrintable, ArePrintableMembers, compact, compact_items, compact_members,
}
use dumais_lib.Json.Closing.{find_closing_curly-compact, find_closing_bracket-compact}

-- The property that the parser makes of a printed node.
abbrev pub property_of_value : Text → SubType → Property
property_of_value s string = record {
  text = escape_string s;
  sub_type = some string;
  kind = Kind.value;
  size = length (escape_string s) + 2;
}
property_of_value s t = record { text = s; sub_type = some t; kind = Kind.value; size = length s }

unfoldable pub property_of : Node → Property
unfolding compact
property_of (value s t) = property_of_value s t
property_of (list xs) = record {
  text = compact (list xs);
  sub_type = none;
  kind = Kind.list;
  size = length (compact (list xs));
}
property_of (object ms) = record {
  text = compact (object ms);
  sub_type = none;
  kind = Kind.object;
  size = length (compact (object ms));
}

-- No unquoted value goes on in the text.
abbrev pub Ends : Text → Type 0
Ends [] = Unit {0}
Ends (c ∷ s) = is_naked c ≡ false

not_short : (n : ℕ) → ltb (suc (suc (suc n))) 3 ≡ false
not_short n = ground arith

take_closed : (k r : Text) → take (suc (suc (length k)) - 2) (k ++ r) ≡ k
take_closed k r = ap (λ n. take n (k ++ r)) (omega arith) ∙ take-append k r

-- `parseString` gives what stands between the quotes.
pub parse_string-is_closed :
    (k r : Text) → is_closed k false ≡ true → parse_string (quote ∷ (k ++ quote ∷ r)) ≡ k
unfolding parse_string
parse_string-is_closed [] r h = refl
parse_string-is_closed (c ∷ k) r h =
    rw (quote_len-is_closed (c ∷ k) r false h, not_short (length k))
      (take_closed (c ∷ k) (quote ∷ r))

parse_naked-ArePlain : (s r : Text) → ArePlain s → Ends r → parse_naked_value (s ++ r) ≡ s
unfolding parse_naked_value
parse_naked-ArePlain [] [] h k = refl
parse_naked-ArePlain [] (c ∷ r) h k = rw k
parse_naked-ArePlain (c ∷ s) r (hc, hs) k = ground (arith, parse_naked-ArePlain s r hs k)

get_value-string :
    (s r : Text)
    → HasNoNul s
    → get_value (stringify_value s string ++ r) ≡ ok (property_of_value s string)
unfolding stringify_value get_value
get_value-string s r h = rw (
  append_assoc (escape_string s) (quote ∷ []) r,
  parse_string-is_closed (escape_string s) r (is_closed-escape_string s h),
)

naked_property-ne :
    (s : Text) (t : SubType) → t ≢ illegal → t ≢ string → naked_property s t ≡ property_of_value s t
unfolding naked_property
naked_property-ne s illegal h k = absurd (h refl)
naked_property-ne s string h k = absurd (k refl)
naked_property-ne s _ h k = refl

get_value-naked :
    (c : ℕ) (s : Text)
    → IsPlain c
    → get_value (c ∷ s)
      ≡ ok (
          naked_property
            (parse_naked_value (c ∷ s))
            (validate_naked_value (parse_naked_value (c ∷ s))))
get_value-naked c s h = unfold get_value is_naked in ground arith

get_value-unquoted :
    (s r : Text) (t : SubType)
    → t ≢ illegal
    → t ≢ string
    → IsUnquoted s t
    → Ends r
    → get_value (s ++ r) ≡ ok (property_of_value s t)
get_value-unquoted [] r t ni ns u e = absurd (u.filled refl)
get_value-unquoted (c ∷ s) r t ni ns u e =
    get_value-naked c (s ++ r) u.plain.0
    ∙ rw (parse_naked-ArePlain (c ∷ s) r u.plain e, u.typed, naked_property-ne (c ∷ s) t ni ns)

get_value-value :
    (s : Text) (t : SubType) (r : Text)
    → IsPrintableValue s t
    → Ends r
    → get_value (stringify_value s t ++ r) ≡ ok (property_of_value s t)
get_value-value s string r h e = get_value-string s r h
get_value-value s illegal r h e = absurd h
get_value-value s t r h e =
    unfold stringify_value in
    get_value-unquoted s r t (λ q. cc) (λ q. cc) (IsPrintableValue-IsUnquoted s t (λ q. cc) h) e

HasNoNul-ArePlain : (s : Text) → ArePlain s → HasNoNul s
HasNoNul-ArePlain [] h = tt
HasNoNul-ArePlain (c ∷ s) (hc, hs) = (ground arith, HasNoNul-ArePlain s hs)

HasNoNul-escape_char : (c : ℕ) → c ≢ 0 → HasNoNul (escape_char c)
unfolding escape_char
HasNoNul-escape_char c h = ground arith

HasNoNul-escape_string : (s : Text) → HasNoNul s → HasNoNul (escape_string s)
unfolding escape_string escape_char
HasNoNul-escape_string [] h = tt
HasNoNul-escape_string (c ∷ s) (hc, hs) =
    HasNoNul-append (escape_char c) (escape_string s) (HasNoNul-escape_char c hc)
      (HasNoNul-escape_string s hs)

HasNoNul-stringify_value :
    (s : Text) (t : SubType) → IsPrintableValue s t → HasNoNul (stringify_value s t)
unfolding stringify_value
HasNoNul-stringify_value s string h = (
  omega arith,
  HasNoNul-append (escape_string s) (quote ∷ []) (HasNoNul-escape_string s h) (omega arith, tt),
)
HasNoNul-stringify_value s illegal h = absurd h
HasNoNul-stringify_value s t h =
    HasNoNul-ArePlain s (IsPrintableValue-IsUnquoted s t (λ q. cc) h).plain

HasNoNul-comma_items : (xs : Items) → HasNoNul (comma_items xs)
HasNoNul-comma_items no_items = tt
HasNoNul-comma_items (item v xs) = (omega arith, tt)

HasNoNul-comma_members : (ms : Members) → HasNoNul (comma_members ms)
HasNoNul-comma_members no_members = tt
HasNoNul-comma_members (member k v ms) = (omega arith, tt)

mutual
  unfolding compact

  HasNoNul-compact : (v : Node) → IsPrintable v → HasNoNul (compact v)
  HasNoNul-compact (value s t) h = HasNoNul-stringify_value s t h
  HasNoNul-compact (list xs) h = (
    omega arith,
    HasNoNul-append (compact_items xs) (b']' ∷ []) (HasNoNul-compact_items xs h) (omega arith, tt),
  )
  HasNoNul-compact (object ms) h = (
    omega arith,
    HasNoNul-append (compact_members ms) (b'}' ∷ []) (HasNoNul-compact_members ms h)
        (omega arith, tt),
  )

  HasNoNul-compact_items : (xs : Items) → ArePrintable xs → HasNoNul (compact_items xs)
  HasNoNul-compact_items no_items h = tt
  HasNoNul-compact_items (item v xs) (hv, hxs) =
      HasNoNul-append (compact v) (comma_items xs ++ compact_items xs) (HasNoNul-compact v hv) (
        HasNoNul-append (comma_items xs) (compact_items xs) (HasNoNul-comma_items xs)
          (HasNoNul-compact_items xs hxs))

  HasNoNul-compact_members : (ms : Members) → ArePrintableMembers ms → HasNoNul (compact_members ms)
  HasNoNul-compact_members no_members h = tt
  HasNoNul-compact_members (member k v ms) (hk, new, hv, hms) = (
    omega arith,
    HasNoNul-append k (quote ∷ b':' ∷ (compact v ++ (comma_members ms ++ compact_members ms)))
        (is_closed-HasNoNul k false hk.1)
        (
          omega arith,
          (
            omega arith,
            HasNoNul-append (compact v) (comma_members ms ++ compact_members ms)
                (HasNoNul-compact v hv)
                (HasNoNul-append (comma_members ms) (compact_members ms) (HasNoNul-comma_members ms)
                  (HasNoNul-compact_members ms hms)),
          ),
        ),
  )

-- `getValue` reads a printed node whole, if the node is printable and what follows ends an
-- unquoted value.
pub get_value-compact :
    (v : Node) (r : Text) → IsPrintable v → Ends r → get_value (compact v ++ r) ≡ ok (property_of v)
unfolding property_of
get_value-compact (value s t) r h e = get_value-value s t r h e
get_value-compact (list xs) r h e =
    unfold get_value in rw (find_closing_bracket-compact xs r h, take-append (compact (list xs)) r)
get_value-compact (object ms) r h e =
    unfold get_value in rw (find_closing_curly-compact ms r h, take-append (compact (object ms)) r)

Ends-c_string : (r : Text) → Ends r → Ends (c_string r)
unfolding c_string
Ends-c_string [] h = tt
Ends-c_string (c ∷ r) h = elim (Bool-cases (c == 0)) [ inl e ↦ rw e tt | inr e ↦ rw e h ]

byte_behind : (k : Text) (x : ℕ) (r : Text) → byte_at (k ++ (quote ∷ x ∷ r)) (suc (length k)) ≡ ok x
byte_behind [] x r = refl
byte_behind (c ∷ k) x r = byte_behind k x r

drop_behind : (k : Text) (x : ℕ) (r : Text) → drop (suc (suc (length k))) (k ++ (quote ∷ x ∷ r)) ≡ r
drop_behind [] x r = refl
drop_behind (c ∷ k) x r = drop_behind k x r

byte_at_colon :
    (k : Text) (x : ℕ) (r : Text) → byte_at (quote ∷ (k ++ (quote ∷ x ∷ r))) (length k + 2) ≡ ok x
byte_at_colon k x r =
    let e : length k + 2 ≡ suc (suc (length k)) = omega arith in rw e (byte_behind k x r)

drop_colon :
    (k : Text) (x : ℕ) (r : Text) → drop (length k + 2 + 1) (quote ∷ (k ++ (quote ∷ x ∷ r))) ≡ r
drop_colon k x r =
    let e : length k + 2 + 1 ≡ suc (suc (suc (length k))) = omega arith in rw e (drop_behind k x r)

abbrev pub pair_of_member : Text → Node → Pair
pair_of_member k v = record {
  key = k;
  val = property_of v;
  size = length k + 2 + 1 + (property_of v).size;
}

-- `getPair` reads a printed member whole, if its key can be read back, its node is printable and
-- what follows ends an unquoted value.
pub get_pair-compact :
    (k : Text) (v : Node) (r : Text)
    → IsKey k
    → IsPrintable v
    → Ends r
    → get_pair (quote ∷ (k ++ (quote ∷ b':' ∷ (compact v ++ r)))) ≡ ok (pair_of_member k v)
get_pair-compact [] v r hk hv e = absurd (hk.0 refl)
get_pair-compact (c ∷ k) v r hk hv e =
    unfold get_pair in
    rw (
      parse_string-is_closed (c ∷ k) (b':' ∷ (compact v ++ r)) hk.1,
      byte_at_colon (c ∷ k) b':' (compact v ++ r),
      drop_colon (c ∷ k) b':' (compact v ++ r),
      c_string-append (compact v) r (HasNoNul-compact v hv),
      get_value-compact v (c_string r) hv (Ends-c_string r e),
    )
