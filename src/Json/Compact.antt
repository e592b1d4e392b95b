-- ===== src/Json/Compact.antt =====
-- The printable trees, and their text with no space outside the strings.
use dumais_lib.Prelude.{
  ℕ, Bool, true, false, ◌&&◌, ◌||◌, [], ◌∷◌, ◌++◌, ◌≡◌, ◌≢◌, refl, arith, map, ap, sym, ◌∙◌, Text,
  leb, ◌==◌, none, ◌⊎◌, inl, inr, codes,
}
use dumais_lib.Json.Types.{SubType, illegal, double, int, uint, string, bool}
use dumais_lib.Json.Scan.{quote}
use dumais_lib.Json.Number.{
  to_lower, is_bool_text, next_type, validate_loop, validate_naked_value, text_eq_iff,
}
use dumais_lib.Json.Escape.{unescape_string, unescape-plain}
use dumais_lib.Json.Node.{
  Node, new_value, value, list, object, Items, no_items, item, Members, no_members, member, find,
}
use dumais_lib.Json.Print.{stringify_value, comma_items, comma_members}
use dumais_lib.Json.Quoted.{is_closed, HasNoNul}

-- A value that its printed text stands for: a string with no NUL, a lower-case truth value, or a
-- number whose text the parser reads at the same type.
abbrev pub IsPrintableValue : Text → SubType → Type 0
IsPrintableValue s string = HasNoNul s
IsPrintableValue s illegal = ⊥
IsPrintableValue s bool = (is_bool_text s ≡ true) × (map to_lower s ≡ s)
IsPrintableValue s t = validate_naked_value s ≡ t

-- A key is printed and read as it stands: it is not empty, and can stand between quotes.
abbrev pub IsKey : Text → Type 0
IsKey k = (k ≢ []) × (is_closed k false ≡ true)

abbrev mutual
  pub IsPrintable : Node → Type 0
  IsPrintable (value s t) = IsPrintableValue s t
  IsPrintable (list xs) = ArePrintable xs
  IsPrintable (object ms) = ArePrintableMembers ms

  pub ArePrintable : Items → Type 0
  ArePrintable no_items = Unit {0}
  ArePrintable (item v xs) = IsPrintable v × ArePrintable xs

  -- No key stands twice.
  pub ArePrintableMembers : Members → Type 0
  ArePrintableMembers no_members = Unit {0}
  ArePrintableMembers (member k v ms) =
      IsKey k × (find k ms ≡ none) × IsPrintable v × ArePrintableMembers ms

unfoldable mutual
  unfolding stringify_value

  pub compact : Node → Text
  compact (value s t) = stringify_value s t
  compact (list xs) = b'[' ∷ (compact_items xs ++ b']' ∷ [])
  compact (object ms) = b'{' ∷ (compact_members ms ++ b'}' ∷ [])

  pub compact_items : Items → Text
  compact_items no_items = []
  compact_items (item v xs) = compact v ++ (comma_items xs ++ compact_items xs)

  pub compact_members : Members → Text
  compact_members no_members = []
  compact_members (member k v ms) =
      quote ∷ (k ++ (quote ∷ b':' ∷ (compact v ++ (comma_members ms ++ compact_members ms))))

-- The bytes of an unquoted value.
abbrev pub IsPlain : ℕ → Type 0
IsPlain c =
    ((leb 0x30 c && leb c 0x39) || (leb b'a' c && leb c b'z') || c == b'.' || c == b'-') ≡ true

abbrev pub ArePlain : Text → Type 0
ArePlain [] = Unit {0}
ArePlain (c ∷ s) = IsPlain c × ArePlain s

validate_loop-ArePlain :
    (s : Text) (first dot : Bool) (nrv : SubType)
    → validate_loop s first dot nrv ≢ illegal
    → ArePlain s
unfolding validate_loop
validate_loop-ArePlain [] first dot nrv h = tt
validate_loop-ArePlain (c ∷ s) first dot nrv h = (
  ground arith,
  validate_loop-ArePlain s false (dot || c == b'.') (next_type c nrv) (λ e. h (ground arith)),
)

-- A text in lower case that reads as a truth value is one of the two.
is_bool_text-cases :
    (s : Text)
    → is_bool_text s ≡ true
    → map to_lower s ≡ s
    → (s ≡ codes "true") ⊎ (s ≡ codes "false")
unfolding is_bool_text
is_bool_text-cases s h low = ground (
  arith,
  text_eq_iff (map to_lower s) (codes "true"),
  text_eq_iff (map to_lower s) (codes "false"),
)

unescape-ArePlain : (s : Text) → ArePlain s → unescape_string s ≡ s
unescape-ArePlain [] h = unfold unescape_string in refl
unescape-ArePlain (c ∷ s) (hc, hs) =
    rw (unescape-plain c s (ground arith)) (ap (λ t. c ∷ t) (unescape-ArePlain s hs))

-- What the parser needs to know of the text of a value that is printed without quotes.
pub record IsUnquoted (s : Text) (t : SubType) : Type 0 where
  pub plain : ArePlain s
  pub filled : s ≢ []
  pub typed : validate_naked_value s ≡ t
  pub built : new_value s t ≡ value s t

validate-ArePlain :
    (s : Text) (t : SubType) → validate_naked_value s ≡ t → t ≢ illegal → t ≢ bool → ArePlain s
unfolding validate_naked_value
validate-ArePlain [] t h ni nb = tt
validate-ArePlain (c ∷ s) t h ni nb = validate_loop-ArePlain (c ∷ s) true false int (ground arith)

validate-filled : (s : Text) (t : SubType) → validate_naked_value s ≡ t → t ≢ illegal → s ≢ []
unfolding validate_naked_value
validate-filled [] t h ni = absurd (ni (sym h))
validate-filled (c ∷ s) t h ni = cc

IsUnquoted-number :
    (s : Text) (t : SubType)
    → validate_naked_value s ≡ t
    → t ≢ illegal
    → t ≢ bool
    → new_value s t ≡ value (unescape_string s) t
    → IsUnquoted s t
IsUnquoted-number s t h ni nb e = record {
  plain = validate-ArePlain s t h ni nb;
  filled = validate-filled s t h ni;
  typed = h;
  built = e ∙ ap (λ x. value x t) (unescape-ArePlain s (validate-ArePlain s t h ni nb));
}

IsUnquoted-bool : (s : Text) → (s ≡ codes "true") ⊎ (s ≡ codes "false") → IsUnquoted s bool
unfolding validate_naked_value new_value
IsUnquoted-bool s (inl e) =
    rw e (record {
      plain = (refl, (refl, (refl, (refl, tt))));
      filled = cc;
      typed = refl;
      built = refl;
    })
IsUnquoted-bool s (inr e) = rw e (record {
  plain = (refl, (refl, (refl, (refl, (refl, tt)))));
  filled = cc;
  typed = refl;
  built = refl;
})

pub IsPrintableValue-IsUnquoted :
    (s : Text) (t : SubType) → t ≢ string → IsPrintableValue s t → IsUnquoted s t
unfolding new_value
IsPrintableValue-IsUnquoted s illegal ns h = absurd h
IsPrintableValue-IsUnquoted s double ns h = IsUnquoted-number s double h (λ e. cc) (λ e. cc) refl
IsPrintableValue-IsUnquoted s int ns h = IsUnquoted-number s int h (λ e. cc) (λ e. cc) refl
IsPrintableValue-IsUnquoted s uint ns h = IsUnquoted-number s uint h (λ e. cc) (λ e. cc) refl
IsPrintableValue-IsUnquoted s string ns h = absurd (ns refl)
IsPrintableValue-IsUnquoted s bool ns (h, low) = IsUnquoted-bool s (is_bool_text-cases s h low)
