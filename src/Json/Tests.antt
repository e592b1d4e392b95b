-- ===== src/Json/Tests.antt =====
-- Runs of the JSON classes on concrete trees.
use dumais_lib.Prelude.{none, some, [], ◌∷◌, ◌++◌, ◌≡◌, refl, Text, codes, arith}
use dumais_lib.Json.Types.{string, int, uint}
use dumais_lib.Json.Number.{validate_naked_value}
use dumais_lib.Json.Scan.{overrun, find_closing_curly, quote}
use dumais_lib.Json.Node.{
  value, list, object, Items, no_items, item, Members, no_members, member, find,
}
use dumais_lib.Json.Print.{stringify}
use dumais_lib.Json.Parse.{done, parse}
use dumais_lib.Json.Compact.{ArePrintable, ArePrintableMembers}
use dumais_lib.Json.Edit.{generate_key}
use dumais_lib.Json.Escape.{escape_string, unescape_string, unescape-escape}
use dumais_lib.Json.Keys.{generate_key-fresh}
use dumais_lib.Json.RoundTrip.{parse-stringify}

abbrev numbers : Items
numbers = item (value (codes "12") int) (item (value (codes "-3") uint) no_items)

-- {"a b": "x}\n", "l": [12, -3]}
abbrev sample : Members
sample =
    member (codes "a b") (value (codes "x}" ++ 10 ∷ []) string)
      (member (codes "l") (list numbers) no_members)

numbers-ArePrintable : ArePrintable numbers
unfolding validate_naked_value
numbers-ArePrintable = (refl, (refl, tt))

sample-ArePrintable : ArePrintableMembers sample
unfolding find
sample-ArePrintable = (
  ((λ e. cc), refl),
  refl,
  ((λ e. omega arith), ((λ e. omega arith), ((λ e. omega arith), tt))),
  (((λ e. cc), refl), refl, numbers-ArePrintable, tt),
)

parse-stringify_example : parse (stringify (object sample) (some 1)) ≡ done (object sample)
parse-stringify_example = parse-stringify sample (some 1) sample-ArePrintable

unescape-escape_example :
    unescape_string (escape_string (b'\\' ∷ 10 ∷ quote ∷ [])) ≡ b'\\' ∷ 10 ∷ quote ∷ []
unescape-escape_example = unescape-escape (b'\\' ∷ 10 ∷ quote ∷ [])

-- The key that the count of members suggests is taken.
abbrev taken : Members
taken = member (codes "key1") (value [] string) no_members

generate_key-fresh_example : (k : Text) × (generate_key taken ≡ some k) × (find k taken ≡ none)
generate_key-fresh_example = generate_key-fresh taken

-- An unterminated string runs past the end of the text.
overrun_test : find_closing_curly (codes "{" ++ quote ∷ codes "x") ≡ overrun
unfolding find_closing_curly
overrun_test = refl
