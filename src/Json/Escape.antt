-- ===== src/Json/Escape.antt =====
-- `Value::escapeString` and `Value::unEscapeString` of json/Value.cpp.
use dumais_lib.Prelude.{
  Option, none, some, [], ◌∷◌, ◌++◌, ◌≡◌, refl, ℕ, arith, Text, ◌==◌, if◌then◌else◌, false,
}
use dumais_lib.Json.Scan.{quote, backslash}

-- What the loop of `escapeString` appends for one character.
unfoldable pub escape_char : ℕ → Text
escape_char c =
    if c == quote
    then backslash ∷ quote ∷ []
    else if c == b'\n'
    then backslash ∷ b'n' ∷ []
    else if c == b'\r'
    then backslash ∷ b'r' ∷ []
    else if c == b'\t'
    then backslash ∷ b't' ∷ []
    else if c == backslash
    then backslash ∷ backslash ∷ []
    else c ∷ []

unfoldable pub escape_string : Text → Text
unfolding escape_char
escape_string [] = []
escape_string (c ∷ s) = escape_char c ++ escape_string s

-- The inner `switch` of `unEscapeString`; `none` is its default branch.
unfoldable pub unescape_char : ℕ → Option ℕ
unescape_char d =
    if d == b'\''
    then some b'\''
    else if d == quote
    then some quote
    else if d == b'n'
    then some b'\n'
    else if d == b'r'
    then some b'\r'
    else if d == b't'
    then some b'\t'
    else if d == backslash
    then some backslash
    else none

-- What a backslash appends: the character that it stands for with the next one, or itself.
abbrev pub after_backslash : Option ℕ → (keep skip : Text) → Text
after_backslash none keep skip = keep
after_backslash (some x) keep skip = x ∷ skip

unfoldable pub unescape_string : Text → Text
unfolding unescape_char
unescape_string [] = []
unescape_string (c ∷ []) = c ∷ []
unescape_string (c ∷ d ∷ s) =
    let keep = c ∷ unescape_string (d ∷ s) in
    let decoded = after_backslash (unescape_char d) keep (unescape_string s) in
    if c == backslash then decoded else keep

pub unescape-plain :
    (c : ℕ) (s : Text) → (c == backslash) ≡ false → unescape_string (c ∷ s) ≡ c ∷ unescape_string s
unfolding unescape_string
unescape-plain c [] h = refl
unescape-plain c (d ∷ s) h = rw h

unescape-escape_char :
    (c : ℕ) (s : Text) → unescape_string (escape_char c ++ s) ≡ c ∷ unescape_string s
unfolding unescape_string escape_char
unescape-escape_char c s = ground (arith, unescape-plain c s)

-- Unescaping undoes escaping, for every text.
pub unescape-escape : (s : Text) → unescape_string (escape_string s) ≡ s
unfolding escape_string
unescape-escape [] = unfold unescape_string in refl
unescape-escape (c ∷ s) = rw (unescape-escape_char c (escape_string s), unescape-escape s)
