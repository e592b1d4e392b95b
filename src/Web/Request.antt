-- ===== src/Web/Request.antt =====
-- `HTTPRequest` of webserver/HTTPRequest.cpp, over the regular expressions of the standard library.
use dumais_lib.Prelude.{
  ℕ, ◌+◌, Bool, true, false, not, ◌&&◌, Option, none, some, List, [], ◌∷◌, ◌++◌, Text, codes, map,
  length, get_or, drop, leb, ◌==◌, if◌then◌else◌,
}
use dumais_lib.Json.Number.{text_eq, to_lower}
use dumais_lib.Rest.Parameters.{Values, get_param, store}

-- What the code uses of `std::regex`: `search ignores_case pattern text` are the groups of the first
-- match, the whole match first; `search_all` are those of every match in turn, with the case read.
pub record Regex : Type 0 where
  pub search : Bool → Text → Text → Option (List Text)
  pub search_all : Text → Text → List (List Text)

pub record Request : Type 0 where
  pub header : Text
  pub buffer : Text

-- `HTTPAuth`.
pub record Auth : Type 0 where
  pub username : Text
  pub nonce : Text
  pub response : Text
  pub uri : Text

-- The constructor's loop, from `dest - 3` on: the header ends behind the third byte of the empty
-- line.
unfoldable pub header_of : Text → Text
header_of (a ∷ b ∷ c ∷ d ∷ s) =
    let rest = header_of (b ∷ c ∷ d ∷ s) in
    if a == 13 && (b == 10 && (c == 13 && d == 10)) then a ∷ b ∷ c ∷ [] else a ∷ rest
header_of s = s

-- The constructor, for a buffer of three bytes at least.
unfoldable pub request : Text → Request
unfolding header_of
request buffer = record { header = header_of buffer; buffer = buffer }

-- `getData`; `none` where `mSize - pos` is below 0, which `assign` refuses with an exception.
unfoldable pub get_data : Request → Option Text
get_data q =
    if leb (length q.header + 1) (length q.buffer)
    then some (drop (length q.header + 1) q.buffer)
    else none

unfoldable pub starts_with : Text → Text → Bool
starts_with [] s = true
starts_with (c ∷ w) [] = false
starts_with (c ∷ w) (d ∷ s) = c == d && starts_with w s

-- Whether `find` finds the word.
unfoldable pub contains : Text → Text → Bool
unfolding starts_with
contains w [] = starts_with w []
contains w (d ∷ s) = let rest = contains w s in if starts_with w (d ∷ s) then true else rest

-- `matches[n].str()`, which is empty if nothing has matched.
unfoldable pub group : ℕ → Option (List Text) → Text
group n none = []
group n (some groups) = get_or groups n []

-- A field that is missing is left as it was constructed, empty.
unfoldable pub auth_of : Values → Auth
unfolding get_param
auth_of fields = record {
  nonce = get_param (codes "nonce") fields;
  username = get_param (codes "digest username") fields;
  response = get_param (codes "response") fields;
  uri = get_param (codes "uri") fields;
}

-- The loop of `getAuthFields`.
unfoldable pub store_fields : List (List Text) → Values → Values
unfolding store to_lower
store_fields [] ret = ret
store_fields (groups ∷ more) ret =
    store_fields more (store (map to_lower (get_or groups 1 [])) (get_or groups 2 []) ret)

module _ (rx : Regex) where
  unfoldable pub get_header : Text → Request → Text
  unfolding group
  get_header header q = group 1 (rx.search true (header ++ codes ": (.*)") q.header)

  unfoldable pub accepts : Text → Request → Bool
  unfolding get_header contains
  accepts accept q = contains accept (get_header (codes "Accept") q)

  -- `getURL`; nothing is returned where nothing matches.
  unfoldable pub get_url : Request → Option Text
  get_url q = elim (rx.search true (codes "^(.*) (.*) (.*)") q.header) [
    | none ↦ none
    | some groups ↦ some (get_or groups 2 [])
  ]

  unfoldable pub get_method : Request → Option Text
  get_method q = elim (rx.search true (codes "^(.*) (.*) (.*)") q.header) [
    | none ↦ none
    | some groups ↦ some (get_or groups 1 [])
  ]

  unfoldable pub get_auth_fields : Text → Values
  unfolding store_fields
  get_auth_fields st = store_fields (rx.search_all (codes " ?([a-zA-Z0-9 ]*)=\"([^\"]*)\"") st) []

  unfoldable pub get_authorization : Request → Auth
  unfolding get_header get_auth_fields auth_of
  get_authorization q = auth_of (get_auth_fields (get_header (codes "authorization") q))

  unfoldable pub wants_authentication_hack : Request → Bool
  unfolding get_header text_eq
  wants_authentication_hack q = not (text_eq (get_header (codes "x-needauthenticationhack") q) [])

  unfoldable pub get_cookie : Text → Request → Text
  unfolding get_header group text_eq
  get_cookie name q =
      let cookie_line = get_header (codes "cookie") q in
      if text_eq cookie_line []
      then []
      else group 1 (rx.search false (name ++ codes "=([a-zA-Z0-9\\. ]*);?") cookie_line)
