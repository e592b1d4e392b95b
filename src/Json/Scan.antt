-- ===== src/Json/Scan.antt =====
-- The character scanners of json/Parser.cpp, over the bytes of a `std::string`.
use dumais_lib.Prelude.{
  ℕ, zero, suc, ◌+◌, ◌-◌, Bool, true, false, ◌&&◌, ◌||◌, Option, none, some, [], ◌∷◌, Text, take,
  ltb, leb, ◌==◌, if◌then◌else◌,
}

abbrev pub quote : ℕ
quote = 34

abbrev pub backslash : ℕ
backslash = 92

-- The loop of `findClosingQuote` behind the opening quote: how far the pointer goes, counted one past
-- the byte at which it stops. That byte is the closing quote, a NUL, or the terminator of `c_str`.
unfoldable pub quote_len : Text → Bool → ℕ
quote_len [] escaped = 1
quote_len (c ∷ s) true = if c == 0 then 1 else suc (quote_len s false)
quote_len (c ∷ s) false =
    let rest = quote_len s (c == backslash) in if c == 0 || c == quote then 1 else suc rest

-- `none` is `npos`.
unfoldable pub find_closing_quote : Text → Option ℕ
unfolding quote_len
find_closing_quote [] = none
find_closing_quote (c ∷ s) = if c == quote then some (suc (quote_len s false)) else none

-- The result of a search with a raw pointer: `at n`, `npos`, or a pointer that has passed the
-- terminating NUL, where the C++ code reads memory that is not the string's.
pub data Found : Type 0 where
  at : ℕ → Found
  npos : Found
  overrun : Found

-- The loop that `findClosingCurly` and `findClosingBracket` share. `skip` counts the bytes that
-- `buf += i` still has to pass, `n` is `buf - b2`.
unfoldable pub close_scan : (opening closing : ℕ) → Text → (skip level n : ℕ) → Found
unfolding quote_len
close_scan o c [] zero level n = npos
close_scan o c [] (suc k) level n = overrun
close_scan o c (x ∷ s) (suc k) level n = close_scan o c s k level (n + 1)
close_scan o c (x ∷ s) zero level n =
    let level' =
      if x == quote
      then level
      else if x == o
      then level + 1
      else if x == c
      then level - 1
      else level in
    let rest = close_scan o c s (if x == quote then quote_len s false else 0) level' (n + 1) in
    if x == 0 then npos else if x == quote then rest else if level' == 0 then at (n + 1) else rest

unfoldable pub find_closing : (opening closing : ℕ) → Text → Found
unfolding close_scan
find_closing o c [] = npos
find_closing o c (x ∷ s) = let found = close_scan o c s 0 1 1 in if x == o then found else npos

unfoldable pub find_closing_curly : Text → Found
unfolding find_closing
find_closing_curly = find_closing b'{' b'}'

unfoldable pub find_closing_bracket : Text → Found
unfolding find_closing
find_closing_bracket = find_closing b'[' b']'

unfoldable pub is_space : ℕ → Bool
is_space c = c == 9 || c == 32 || c == 13 || c == 10

-- `removeSpaces`: `copying` counts the bytes of a string that are still to be copied. At the end of
-- the text `str[str.size()]` is the terminating NUL.
unfoldable pub remove_spaces_from : Text → (copying : ℕ) → Text
unfolding quote_len is_space
remove_spaces_from [] zero = []
remove_spaces_from [] (suc k) = 0 ∷ []
remove_spaces_from (c ∷ s) (suc k) = c ∷ remove_spaces_from s k
remove_spaces_from (c ∷ s) zero =
    let rest = remove_spaces_from s (if c == quote then quote_len s false else 0) in
    if c == quote then c ∷ rest else if is_space c then rest else c ∷ rest

unfoldable pub remove_spaces : Text → Text
unfolding remove_spaces_from
remove_spaces s = remove_spaces_from s 0

unfoldable pub is_naked : ℕ → Bool
is_naked c =
    (leb 0x30 c && leb c 0x39)
    || (leb b'a' c && leb c b'z')
    || (leb b'A' c && leb c b'Z')
    || c == b'.'
    || c == b'-'

-- `parseNakedValue`: the longest prefix of digits, letters, dots and minus signs.
unfoldable pub parse_naked_value : Text → Text
unfolding is_naked
parse_naked_value [] = []
parse_naked_value (c ∷ s) = let rest = parse_naked_value s in if is_naked c then c ∷ rest else []

-- `parseString`: the bytes between the quotes, as they stand.
unfoldable pub parse_string : Text → Text
unfolding quote_len
parse_string [] = []
parse_string (c ∷ s) =
    let i = suc (quote_len s false) in
    if c == quote then (if ltb i 3 then [] else take (i - 2) s) else []
