-- ===== src/Json/Property.antt =====
-- `Parser::getValue` and `Parser::getPair` of json/Parser.cpp.
use dumais_lib.Prelude.{
  ℕ, zero, suc, ◌+◌, Option, none, some, [], ◌∷◌, Text, codes, length, take, drop, ◌==◌,
  if◌then◌else◌,
}
use dumais_lib.Json.Types.{SubType, illegal, string, Kind, invalid, object, list, value}
use dumais_lib.Json.Scan.{
  quote, Found, at, npos, overrun, find_closing_curly, find_closing_bracket, is_naked,
  parse_naked_value, parse_string,
}
use dumais_lib.Json.Number.{validate_naked_value}

-- `JSONProperty`. `sub_type` is `none` where the C++ code leaves the field uninitialised.
pub record Property : Type 0 where
  pub text : Text
  pub sub_type : Option SubType
  pub kind : Kind
  pub size : ℕ

-- `Pair`.
pub record Pair : Type 0 where
  pub key : Text
  pub val : Property
  pub size : ℕ

-- What a call returns, or that it reads behind the terminating NUL of its argument.
pub data Read {ℓ} (A : Type ℓ) : Type ℓ where
  ok : A → Read A
  out_of_bounds : Read A

abbrev pub invalid_property : Property
invalid_property = record { text = []; sub_type = none; kind = invalid; size = 0 }

-- A nested text that its closing character ends, taken whole.
unfoldable pub nested : Kind → Text → Found → Read Property
nested k s (at n) = ok (record { text = take n s; sub_type = none; kind = k; size = n })
nested k s npos = ok invalid_property
nested k s overrun = out_of_bounds

unfoldable pub string_property : Text → Property
string_property s =
    let v = parse_string s in
    record { text = v; sub_type = some string; kind = value; size = length v + 2 }

-- The `switch` on the type of an unquoted value.
unfoldable pub naked_property : Text → SubType → Property
naked_property s illegal = record {
  text = codes "{illegal}";
  sub_type = some illegal;
  kind = value;
  size = length s;
}
naked_property s t = record { text = s; sub_type = some t; kind = value; size = length s }

unfoldable pub get_value : Text → Read Property
unfolding nested string_property naked_property
get_value [] = ok invalid_property
get_value (c ∷ s) =
    if c == b'{'
    then nested object (c ∷ s) (find_closing_curly (c ∷ s))
    else if c == b'['
    then nested list (c ∷ s) (find_closing_bracket (c ∷ s))
    else if c == quote
    then ok (string_property (c ∷ s))
    else if is_naked c
    then ok (
        naked_property (parse_naked_value (c ∷ s))
          (validate_naked_value (parse_naked_value (c ∷ s))))
    else ok invalid_property

-- The byte at an index, where `s[s.size()]` is the terminating NUL.
abbrev pub byte_at : Text → ℕ → Read ℕ
byte_at [] zero = ok 0
byte_at [] (suc i) = out_of_bounds
byte_at (c ∷ s) zero = ok c
byte_at (c ∷ s) (suc i) = byte_at s i

-- The `std::string` that is made of a `const char*`: it ends at the first NUL.
unfoldable pub c_string : Text → Text
c_string [] = []
c_string (c ∷ s) = let rest = c_string s in if c == 0 then [] else c ∷ rest

infixl 5 ◌>>=◌
abbrev pub ◌>>=◌ {ℓ κ} : {A : Type ℓ} {B : Type κ} → Read A → (A → Read B) → Read B
ok a >>= f = f a
out_of_bounds >>= f = out_of_bounds

abbrev pub invalid_pair : Text → Pair
invalid_pair k = record { key = k; val = invalid_property; size = 0 }

-- What `getPair` does once the key is known.
unfoldable pub pair_of : (key s : Text) → Read Pair
unfolding get_value c_string
pair_of [] s = ok (invalid_pair [])
pair_of (c ∷ k) s =
    let at_colon = length (c ∷ k) + 2 in
    let read_value = (do
      v ← get_value (c_string (drop (at_colon + 1) s))
      ok (record { key = c ∷ k; val = v; size = at_colon + 1 + v.size })) in
    (do
      b ← byte_at s at_colon
      (if b == b':'
          then read_value
          else ok (record { key = c ∷ k; val = invalid_property; size = at_colon })))

unfoldable pub get_pair : Text → Read Pair
unfolding pair_of
get_pair s = pair_of (parse_string s) s
