-- ===== src/Rest/Parameters.antt =====
-- `RESTParameters` of rest/RESTParameters.cpp: the parameters of a query.
use dumais_lib.Prelude.{
  ℕ, Bool, true, false, ◌||◌, Option, none, some, List, [], ◌∷◌, ◌++◌, Text, ◌==◌, if◌then◌else◌,
}
use dumais_lib.Json.Number.{text_eq}

-- `std::map<std::string,std::string>`.
abbrev pub Values : Type 0
Values = List (Text × Text)

unfoldable pub lookup : Text → Values → Option Text
unfolding text_eq
lookup k [] = none
lookup k ((j, v) ∷ m) = if text_eq j k then some v else lookup k m

unfoldable pub store : Text → Text → Values → Values
unfolding text_eq
store k v [] = (k, v) ∷ []
store k v ((j, w) ∷ m) = if text_eq j k then (j, v) ∷ m else (j, w) ∷ store k v m

-- `getParam`: no text for a key that is missing.
unfoldable pub get_param : Text → Values → Text
unfolding lookup
get_param k m = elim (lookup k m) [ none ↦ [] | some v ↦ v ]

-- The variables of the constructor's loop.
pub record Scan : Type 0 where
  pub key_flag : Bool
  pub key : Text
  pub value : Text
  pub found : Values

abbrev pub is_end : ℕ → Bool
is_end c = c == b' ' || c == 13 || c == 10

abbrev pub at_end : Text → Bool
at_end [] = true
at_end (c ∷ s) = is_end c

-- `registered` tells which names `registeredParams` has.
module _ (registered : Text → Bool) where
  unfoldable pub save : Text → Text → Values → Values
  unfolding store
  save k v m = if registered k then store k v m else m

  -- The tests on one character.
  unfoldable pub scan_char : ℕ → Scan → Scan
  unfolding save
  scan_char c st =
      if c == b'='
      then record st { key_flag = false }
      else if c == b'&' || is_end c
      then record { key_flag = true; key = []; value = []; found = save st.key st.value st.found }
      else if st.key_flag
      then record st { key = st.key ++ c ∷ [] }
      else record st { value = st.value ++ c ∷ [] }

  -- The loop from the index `n` on.
  unfoldable pub scan : Scan → Text → Values
  unfolding scan_char
  scan st [] = st.found
  scan st (c ∷ s) =
      let st' = scan_char c st in
      let rest = scan st' s in
      if c == b' ' then st.found else if at_end s then save st'.key st'.value st'.found else rest

  -- The constructor.
  unfoldable pub parameters : Text → Values
  unfolding scan
  parameters s = scan (record { key_flag = true; key = []; value = []; found = [] }) s
