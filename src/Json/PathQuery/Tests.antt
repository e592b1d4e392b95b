-- ===== src/Json/PathQuery/Tests.antt =====
-- A query of `JSONPathQuery` of json/JSON.cpp.
use dumais_lib.Prelude.{
  ℕ, ◌-◌, ◌≡◌, refl, arith, Option, none, some, List, [], ◌∷◌, Text, codes, get_or, if◌then◌else◌,
}
use dumais_lib.Json.Types.{string}
use dumais_lib.Json.Number.{text_eq}
use dumais_lib.Json.Node.{
  Node, value, list, object, Items, no_items, no_members, member, get_by_key, get_by_index,
}
use dumais_lib.Json.Root.{at_key, at_index}
use dumais_lib.Json.PathQuery.{found, json_path_query}
use dumais_lib.Json.PathQuery.Walking.{
  first_run, Step, key, item, step_text, path_text, walk, HasNoSlash, IsPart, IsReadable,
  AreReadable, json_path_query-walk,
}

-- The groups of the one text with an index that is looked for.
abbrev groups : Text → Option (Text × Text)
groups s = if text_eq s (codes "b[1]") then some (codes "b", codes "1") else none

abbrev digit : Text → Option ℕ
digit s = some (get_or s 0 48 - 48)

abbrev leaf : Node
leaf = value (codes "deep") string

abbrev tree : Node
tree = object (
    member (codes "a")
      (object (member (codes "b") (list (Items.item leaf (Items.item leaf no_items))) no_members))
      no_members)

abbrev steps : List Step
steps = key (codes "a") ∷ item (codes "b") (codes "1") 1 ∷ []

steps-AreReadable : AreReadable first_run groups digit (λ text. refl) steps
unfolding AreReadable IsReadable IsPart HasNoSlash step_text text_eq
steps-AreReadable = (
  (((λ e. omega arith), tt), refl),
  (
    (
      ((λ e. omega arith), ((λ e. omega arith), ((λ e. omega arith), ((λ e. omega arith), tt)))),
      refl,
      refl,
    ),
    tt,
  ),
)

json_path_query-walk_example :
    json_path_query first_run groups digit 5 (some tree) (codes "/a/b[1]") ≡ found (some leaf)
unfolding path_text walk at_key at_index get_by_key get_by_index
json_path_query-walk_example =
    json_path_query-walk first_run groups digit (λ text. refl) 5 steps (some tree) steps-AreReadable
      (omega arith)

-- A path without a slash at its start, and one that leads nowhere.
json_path_query_test :
    json_path_query first_run groups digit 5 (some tree) (codes "a/b[1]") ≡ found (some leaf)
unfolding json_path_query first_run text_eq
json_path_query_test = refl

json_path_query_invalid_test :
    json_path_query first_run groups digit 5 (some tree) (codes "a/c/d") ≡ found none
unfolding json_path_query first_run text_eq
json_path_query_invalid_test = refl
