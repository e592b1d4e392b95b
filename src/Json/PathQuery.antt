-- ===== src/Json/PathQuery.antt =====
-- `JSONPathQuery` and `JSON::matchNode` of json/JSON.cpp.
pub mod Walking
mod Tests
use dumais_lib.Prelude.{
  ℕ, zero, suc, ◌≡◌, ◌≢◌, refl, ap, sym, ◌∙◌, ◌+◌, ◌≤◌, ◌<◌, arith, Bool, Bool-cases, inl, inr,
  Option, none, some, List, [], ◌∷◌, ◌++◌, Text, map, length, length-append, ◌==◌, if◌then◌else◌,
  ==_of_ne,
}
use dumais_lib.Json.Node.{Ref}
use dumais_lib.Json.Root.{at_index, at_key}

-- What a query ends with: a reference to a node or to `mInvalid`, or the exception of `std::stoi`;
-- `no_fuel` means that the loop's fuel ran out.
pub data Found : Type 0 where
  found : Ref → Found
  throws no_fuel : Found

-- `next` is the search for `[^\/]+`: the match, and the text behind it. `indexed` is the search for
-- `(.+)\[([0-9]*)\]`: its two groups. `stoi` has no number where `std::stoi` throws.
module _ (next : Text → Option (Text × Text)) (indexed : Text → Option (Text × Text))
    (stoi : Text → Option ℕ) where
  -- The loop of `JSONPathQuery`.
  unfoldable pub query_parts : (fuel : ℕ) → Text → Option (List Text)
  query_parts zero query = none
  query_parts (suc f) query = elim (next query) [
    | none ↦ some []
    | some (part, suffix) ↦ elim (query_parts f suffix) [
      | none ↦ none
      | some parts ↦ some (part ∷ parts)
    ]
  ]

  -- `matchNode`.
  unfoldable pub match_node : List Text → Ref → Found
  unfolding at_index at_key
  match_node [] r = found r
  match_node (node ∷ query) r = elim (indexed node) [
    | none ↦ match_node query (at_key r node)
    | some (name, digits) ↦ elim (stoi digits) [
      | none ↦ throws
      | some index ↦ match_node query (at_index (at_key r name) index)
    ]
  ]

  -- `JSONPathQuery`.
  unfoldable pub json_path_query : (fuel : ℕ) → Ref → (query : Text) → Found
  unfolding query_parts match_node
  json_path_query fuel json query = elim (query_parts fuel query) [
    | none ↦ no_fuel
    | some parts ↦ match_node parts json
  ]
