-- ===== src/Json/Print.antt =====
-- `stringify` of json/Value.cpp, json/List.cpp and json/Object.cpp.
use dumais_lib.Prelude.{ℕ, suc, ◌-◌, Option, none, some, [], ◌∷◌, ◌++◌, Text, replicate}
use dumais_lib.Json.Types.{SubType, string, illegal}
use dumais_lib.Json.Scan.{quote}
use dumais_lib.Json.Escape.{escape_string}
use dumais_lib.Json.Node.{
  Node, value, list, object, Items, no_items, item, Members, no_members, member,
}

-- `level`, which is -1 (`none`) or at least 1.
abbrev pub Level : Type 0
Level = Option ℕ

abbrev pub deeper : Level → Level
deeper none = none
deeper (some n) = some (suc n)

abbrev pub new_line : Level → Text
new_line none = []
new_line (some n) = 13 ∷ 10 ∷ []

-- `for (int i=0;i<level;i++) ss<<"\t"`, and the same with `level-1`.
abbrev pub tabs : Level → Text
tabs none = []
tabs (some n) = replicate n 9

abbrev pub outer_tabs : Level → Text
outer_tabs none = []
outer_tabs (some n) = replicate (n - 1) 9

unfoldable pub stringify_value : Text → SubType → Text
unfolding escape_string
stringify_value s string = quote ∷ (escape_string s ++ quote ∷ [])
stringify_value s illegal = quote ∷ (escape_string s ++ quote ∷ [])
stringify_value s _ = s

-- What follows a printed node: a comma if another node follows.
abbrev pub comma_items : Items → Text
comma_items no_items = []
comma_items (item v xs) = b',' ∷ []

abbrev pub comma_members : Members → Text
comma_members no_members = []
comma_members (member k v ms) = b',' ∷ []

-- The loops print what stands between the brackets.
unfoldable mutual
  unfolding stringify_value

  pub stringify : Node → Level → Text
  stringify (value s t) l = stringify_value s t
  stringify (list xs) l =
      b'[' ∷ (new_line l ++ (stringify_items xs l ++ (outer_tabs l ++ b']' ∷ [])))
  stringify (object ms) l =
      b'{' ∷ (new_line l ++ (stringify_members ms l ++ (outer_tabs l ++ b'}' ∷ [])))

  pub stringify_items : Items → Level → Text
  stringify_items no_items l = []
  stringify_items (item v xs) l =
      tabs l ++ (stringify v (deeper l) ++ (comma_items xs ++ (new_line l ++ stringify_items xs l)))

  pub stringify_members : Members → Level → Text
  stringify_members no_members l = []
  stringify_members (member k v ms) l =
      tabs l
      ++ (quote
          ∷ (k
              ++ (quote
                  ∷ b' '
                  ∷ b':'
                  ∷ b' '
                  ∷ (stringify v (deeper l)
                      ++ (comma_members ms ++ (new_line l ++ stringify_members ms l))))))
