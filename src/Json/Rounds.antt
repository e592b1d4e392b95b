-- ===== src/Json/Rounds.antt =====
-- One round of the loops of `parseObject` and `parseList` on printed text.
use dumais_lib.Prelude.{
  ℕ, suc, ◌+◌, none, some, [], ◌∷◌, ◌++◌, ◌≡◌, ◌≢◌, refl, arith, Text, length, length-append, ◌==◌,
  false, drop,
}
use dumais_lib.Json.Types.{illegal, string}
use dumais_lib.Json.Scan.{quote}
use dumais_lib.Json.Escape.{escape_string}
use dumais_lib.Json.Property.{ok, Property, Pair, get_value, get_pair, byte_at}
use dumais_lib.Json.Node.{Node, value, list, object, Items, Members, push_back, insert}
use dumais_lib.Json.Print.{stringify_value}
use dumais_lib.Json.Parse.{done, parse_node, parse_members, parse_items, goes_on}
use dumais_lib.Json.Compact.{IsPrintable, compact}
use dumais_lib.Json.Values.{property_of}

-- The size of an element is that of its printed text, so what follows it is where the loop looks.
pub size-property_of : (v : Node) → IsPrintable v → (property_of v).size ≡ length (compact v)
unfolding property_of stringify_value
size-property_of (value s string) h = omega (arith, length-append (escape_string s) (quote ∷ []))
size-property_of (value s illegal) h = absurd h
size-property_of (value s _) h = refl
size-property_of (list xs) h = refl
size-property_of (object ms) h = refl

byte_at-append : (t r : Text) (x : ℕ) → byte_at (t ++ x ∷ r) (length t) ≡ ok x
byte_at-append [] r x = refl
byte_at-append (c ∷ t) r x = byte_at-append t r x

drop_past : (t r : Text) (x : ℕ) → drop (length t + 1) (t ++ x ∷ r) ≡ r
drop_past t r x = let e : length t + 1 ≡ suc (length t) = omega arith in rw e (past t)
  where
    past : (u : Text) → drop (suc (length u)) (u ++ x ∷ r) ≡ r
    past [] = refl
    past (c ∷ u) = past u

pub goes_on-comma : (t r : Text) → goes_on (t ++ b',' ∷ r) (length t) ≡ done (some r)
goes_on-comma t r = rw (byte_at-append t r b',', drop_past t r b',')

pub goes_on-end :
    (t r : Text) (x : ℕ) → (x == b',') ≡ false → goes_on (t ++ x ∷ r) (length t) ≡ done none
goes_on-end t r x h = rw (byte_at-append t r x, h)

-- One round of the loop of `parseList`.
pub items_round :
    (f : ℕ) (tmp : Text) (xs : Items) (p : Property) (v : Node)
    → tmp ≢ []
    → get_value tmp ≡ ok p
    → parse_node f p.kind p ≡ done (some v)
    → (goes_on tmp p.size ≡ done none → parse_items (suc f) tmp xs ≡ done (push_back xs v))
      × ((rest : Text)
          → goes_on tmp p.size ≡ done (some rest)
          → parse_items (suc f) tmp xs ≡ parse_items f rest (push_back xs v))
unfolding parse_items
items_round f [] xs p v ne hp hv = absurd (ne refl)
items_round f (c ∷ s) xs p v ne hp hv = (λ h. rw (hp, hv, h), λ rest h. rw (hp, hv, h))

-- One round of the loop of `parseObject`.
pub members_round :
    (f : ℕ) (tmp : Text) (ms : Members) (q : Pair) (v : Node)
    → tmp ≢ []
    → get_pair tmp ≡ ok q
    → parse_node f q.val.kind q.val ≡ done (some v)
    → (goes_on tmp q.size ≡ done none → parse_members (suc f) tmp ms ≡ done (insert q.key v ms))
      × ((rest : Text)
          → goes_on tmp q.size ≡ done (some rest)
          → parse_members (suc f) tmp ms ≡ parse_members f rest (insert q.key v ms))
unfolding parse_members
members_round f [] ms q v ne hp hv = absurd (ne refl)
members_round f (c ∷ s) ms q v ne hp hv = (λ h. rw (hp, hv, h), λ rest h. rw (hp, hv, h))
