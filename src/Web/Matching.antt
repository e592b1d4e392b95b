-- ===== src/Web/Matching.antt =====
-- A search for the two patterns of webserver/HTTPFramingStrategy.cpp, on which runs of the framing
-- instantiate `std::regex_search`, and `atoi` for texts of digits.
use dumais_lib.Prelude.{
  ℕ, ◌+◌, ◌-◌, ◌*◌, Bool, ◌&&◌, ◌||◌, Option, none, some, List, [], ◌∷◌, Text, leb, ◌==◌,
  if◌then◌else◌,
}
use dumais_lib.Json.Number.{to_lower}
use dumais_lib.Web.Request.{Regex}

-- `.*`: a dot stands for no end of a line.
unfoldable pub line : Text → Text
line [] = []
line (c ∷ s) = let rest = line s in if c == 13 || c == 10 then [] else c ∷ rest

unfoldable pub skip_spaces : Text → Text
skip_spaces [] = []
skip_spaces (c ∷ s) = let rest = skip_spaces s in if c == b' ' then rest else c ∷ s

-- One character of the pattern, in which a space has a star behind it; the case is ignored.
unfoldable pub advance : ℕ → Text → Option Text
unfolding skip_spaces to_lower
advance c [] = if c == b' ' || c == b'*' then some [] else none
advance c (d ∷ s) =
    if c == b' '
    then some (skip_spaces (d ∷ s))
    else if c == b'*'
    then some (d ∷ s)
    else if to_lower c == to_lower d
    then some s
    else none

-- What the pattern's group takes where the text begins with a match.
unfoldable pub match_at : (pattern text : Text) → Option Text
unfolding advance line
match_at [] t = some []
match_at (c ∷ p) t =
    if c == b'(' then some (line t) else elim (advance c t) [ none ↦ none | some s ↦ match_at p s ]

-- The first match: the text from it on, and its group.
unfoldable pub search_text : (icase : Bool) → (pattern text : Text) → Option (List Text)
unfolding match_at
search_text icase pattern [] = none
search_text icase pattern (d ∷ s) =
    let rest = search_text icase pattern s in
    elim (match_at pattern (d ∷ s)) [ none ↦ rest | some found ↦ some ((d ∷ s) ∷ found ∷ []) ]

abbrev pub regex : Regex
regex = record { search = search_text; search_all = λ pattern text. [] }

unfoldable pub digits_from : ℕ → Text → ℕ
digits_from n [] = n
digits_from n (c ∷ s) =
    let rest = digits_from (n * 10 + (c - 48)) s in if leb 48 c && leb c 57 then rest else n

abbrev pub atoi : Text → ℕ
atoi s = digits_from 0 s
