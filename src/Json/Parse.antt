-- ===== src/Json/Parse.antt =====
-- `Object::parseObject`, `List::parseList` and `JSON::parse`.
use dumais_lib.Prelude.{
  ℕ, zero, suc, ◌+◌, Option, none, some, [], ◌∷◌, Text, drop, length, ◌==◌, if◌then◌else◌,
}
use dumais_lib.Json.Types.{SubType, illegal, Kind}
use dumais_lib.Json.Types.{Kind}
use dumais_lib.Json.Scan.{remove_spaces}
use dumais_lib.Json.Property.{Property, Read, byte_at, get_value, get_pair}
use dumais_lib.Json.Node.{
  Node, list, object, Items, no_items, Members, no_members, insert, push_back, new_value,
}

-- The result of a run: its value, a read behind a terminating NUL, or the fuel ran out.
pub data Run {ℓ} (A : Type ℓ) : Type ℓ where
  done : A → Run A
  fault : Run A
  no_fuel : Run A

infixl 5 ◌>>=◌
abbrev pub ◌>>=◌ {ℓ κ} : {A : Type ℓ} {B : Type κ} → Run A → (A → Run B) → Run B
done a >>= f = f a
fault >>= f = fault
no_fuel >>= f = no_fuel

abbrev pub lift {ℓ} : {A : Type ℓ} → Read A → Run A
lift (Read.ok a) = done a
lift Read.out_of_bounds = fault

-- The sub type that the constructor of `Value` reads.
abbrev pub sub_type_of : Option SubType → SubType
sub_type_of none = illegal
sub_type_of (some t) = t

-- What follows an element: the closing character ends the loop, and so does anything but a comma.
abbrev pub goes_on : Text → ℕ → Run (Option Text)
goes_on tmp size = do
  b ← lift (byte_at tmp size)
  (if b == b',' then done (some (drop (size + 1) tmp)) else done none)

unfoldable mutual
  -- `new Object(str)`: the loop starts behind the brace, if there is one.
  pub parse_object : ℕ → Text → Run Members
  parse_object zero str = no_fuel
  parse_object (suc f) [] = done no_members
  parse_object (suc f) (c ∷ s) =
      let run = parse_members f s no_members in if c == b'{' then run else done no_members

  pub parse_list : ℕ → Text → Run Items
  parse_list zero str = no_fuel
  parse_list (suc f) [] = done no_items
  parse_list (suc f) (c ∷ s) =
      let run = parse_items f s no_items in if c == b'[' then run else done no_items

  -- The node that an element's property stands for; `none` is JSON_Invalid.
  pub parse_node : ℕ → Kind → Property → Run (Option Node)
  parse_node zero k p = no_fuel
  parse_node (suc f) Kind.invalid p = done none
  parse_node (suc f) Kind.object p = do ms ← parse_object f p.text; done (some (object ms))
  parse_node (suc f) Kind.list p = do xs ← parse_list f p.text; done (some (list xs))
  parse_node (suc f) Kind.value p = done (some (new_value p.text (sub_type_of p.sub_type)))

  -- `while (i<str.size())`, with `tmp` for `str.substr(i)`.
  pub parse_members : ℕ → Text → Members → Run Members
  parse_members zero tmp ms = no_fuel
  parse_members (suc f) [] ms = done ms
  parse_members (suc f) (c ∷ s) ms = do
    p ← lift (get_pair (c ∷ s))
    n ← parse_node f p.val.kind p.val
    (elim n [
      | none ↦ done ms
      | some v ↦ do
        more ← goes_on (c ∷ s) p.size
        (elim more [
          | none ↦ done (insert p.key v ms)
          | some tmp ↦ parse_members f tmp (insert p.key v ms)
        ])
    ])

  pub parse_items : ℕ → Text → Items → Run Items
  parse_items zero tmp xs = no_fuel
  parse_items (suc f) [] xs = done xs
  parse_items (suc f) (c ∷ s) xs = do
    p ← lift (get_value (c ∷ s))
    n ← parse_node f p.kind p
    (elim n [
      | none ↦ done xs
      | some v ↦ do
        more ← goes_on (c ∷ s) p.size
        (elim more [ none ↦ done (push_back xs v) | some tmp ↦ parse_items f tmp (push_back xs v) ])
    ])

-- More than the number of nested calls that a text of this length can make.
abbrev pub enough_fuel : Text → ℕ
enough_fuel s = 3 + (length s + (length s + length s))

-- `JSON::parse`: the root is always an object.
unfoldable pub parse : Text → Run Node
parse json = do
  ms ← parse_object (enough_fuel (remove_spaces json)) (remove_spaces json)
  done (object ms)
