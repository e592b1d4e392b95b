-- ===== src/Json/PathQuery/Walking.antt =====
-- The paths that `JSONPathQuery` of json/JSON.cpp follows.
use dumais_lib.Prelude.{
  ℕ, zero, suc, ◌≡◌, ◌≢◌, refl, ap, ◌∙◌, ◌<◌, arith, Option, none, some, List, [], ◌∷◌, ◌++◌, Text,
  map, length, ◌==◌, if◌then◌else◌, ==_of_ne,
}
use dumais_lib.Json.Node.{Ref}
use dumais_lib.Json.Root.{at_index, at_key}
use dumais_lib.Json.PathQuery.{found, query_parts, match_node, json_path_query}

-- The first run of characters other than a slash, and the text behind it.
unfoldable pub run_of : Text → Text × Text
run_of [] = ([], [])
run_of (c ∷ s) = let rest = run_of s in if c == b'/' then ([], c ∷ s) else (c ∷ rest.0, rest.1)

abbrev if_any : Text × Text → Option (Text × Text)
if_any ([], s) = none
if_any (c ∷ part, s) = some (c ∷ part, s)

unfoldable pub first_run : Text → Option (Text × Text)
unfolding run_of
first_run [] = none
first_run (c ∷ s) = let rest = first_run s in if c == b'/' then rest else if_any (run_of (c ∷ s))

-- A step of a path: a member of an object, or an item of a member that is a list, whose index is written
-- with some digits.
pub data Step : Type 0 where
  key : (name : Text) → Step
  item : (name digits : Text) → (index : ℕ) → Step

unfoldable pub step_text : Step → Text
step_text (key name) = name
step_text (item name digits index) = name ++ (b'[' ∷ (digits ++ b']' ∷ []))

-- A path with a slash before every step.
unfoldable pub path_text : List Step → Text
unfolding step_text
path_text [] = []
path_text (s ∷ ss) = b'/' ∷ (step_text s ++ path_text ss)

-- The node that a path leads to.
unfoldable pub walk : List Step → Ref → Ref
unfolding at_key at_index
walk [] r = r
walk (key name ∷ ss) r = walk ss (at_key r name)
walk (item name digits index ∷ ss) r = walk ss (at_index (at_key r name) index)

unfoldable pub HasNoSlash : Text → Type 0
HasNoSlash [] = Unit {0}
HasNoSlash (c ∷ s) = (c ≢ b'/') × HasNoSlash s

-- A step whose text has characters and no slash.
unfoldable pub IsPart : Text → Type 0
unfolding HasNoSlash
IsPart [] = ⊥
IsPart (c ∷ s) = HasNoSlash (c ∷ s)

run_of-part :
    (s : Text) (ss : List Step) → HasNoSlash s → run_of (s ++ path_text ss) ≡ (s, path_text ss)
unfolding run_of HasNoSlash path_text
run_of-part [] [] h = refl
run_of-part [] (t ∷ ss) h = refl
run_of-part (c ∷ s) ss (ne, h) =
    rw (==_of_ne c b'/' ne) (ap (λ r. (c ∷ r.0, r.1)) (run_of-part s ss h))

first_run-path :
    (s : Text) (ss : List Step)
    → IsPart s
    → first_run (b'/' ∷ (s ++ path_text ss)) ≡ some (s, path_text ss)
unfolding first_run IsPart HasNoSlash
first_run-path [] ss h = absurd h
first_run-path (c ∷ s) ss (ne, h) =
    rw (==_of_ne c b'/' ne) (ap (λ r. if_any (c ∷ r.0, r.1)) (run_of-part s ss h))

module _ (next : Text → Option (Text × Text)) (indexed : Text → Option (Text × Text))
    (stoi : Text → Option ℕ) (searches : (text : Text) → next text ≡ first_run text) where
  -- The expression and `std::stoi` read the step's text.
  unfoldable pub IsReadable : Step → Type 0
  IsReadable (key name) = IsPart name × (indexed name ≡ none)
  IsReadable (item name digits index) =
      IsPart (step_text (item name digits index))
      × (indexed (step_text (item name digits index)) ≡ some (name, digits))
      × (stoi digits ≡ some index)

  unfoldable pub AreReadable : List Step → Type 0
  unfolding IsReadable
  AreReadable [] = Unit {0}
  AreReadable (s ∷ ss) = IsReadable s × AreReadable ss

  IsReadable-IsPart : (s : Step) → IsReadable s → IsPart (step_text s)
  unfolding IsReadable step_text
  IsReadable-IsPart (key name) h = h.0
  IsReadable-IsPart (item name digits index) h = h.0

  query_parts-path :
      (f : ℕ) (ss : List Step)
      → AreReadable ss
      → length ss < f
      → query_parts next indexed stoi f (path_text ss) ≡ some (map step_text ss)
  unfolding query_parts AreReadable path_text
  query_parts-path zero ss h few = absurd (omega arith)
  query_parts-path (suc f) [] h few =
      let e : next [] ≡ none = searches [] ∙ (unfold first_run in refl) in rw (query_parts, e) refl
  query_parts-path (suc f) (s ∷ ss) (h, later) few =
      let e : next (b'/' ∷ (step_text s ++ path_text ss)) ≡ some (step_text s, path_text ss) =
        searches (b'/' ∷ (step_text s ++ path_text ss))
        ∙ first_run-path (step_text s) ss (IsReadable-IsPart s h) in
      rw (query_parts, e) (rw (query_parts-path f ss later (omega arith)) refl)

  match_node-walk :
      (ss : List Step) (r : Ref)
      → AreReadable ss
      → match_node next indexed stoi (map step_text ss) r ≡ found (walk ss r)
  unfolding match_node walk AreReadable IsReadable step_text
  match_node-walk [] r h = refl
  match_node-walk (key name ∷ ss) r ((part, plain), later) =
      rw (match_node, plain) (match_node-walk ss (at_key r name) later)
  match_node-walk (item name digits index ∷ ss) r ((part, groups, number), later) =
      rw (match_node, groups)
        (rw (match_node, number) (match_node-walk ss (at_index (at_key r name) index) later))

  -- A path query finds the node that its path leads to, and the invalid one where the path
  -- leads to none: every step has a slash before it and a text that is not empty and has no
  -- slash. The first expression finds the first run of characters other than a slash; the
  -- second one finds the name and the digits of every step with an index, and nothing in the
  -- other steps; and `stoi` reads the digits.
  pub json_path_query-walk :
      (f : ℕ) (ss : List Step) (json : Ref)
      → AreReadable ss
      → length ss < f
      → json_path_query next indexed stoi f json (path_text ss) ≡ found (walk ss json)
  unfolding json_path_query
  json_path_query-walk f ss json h few =
      rw (json_path_query, query_parts-path f ss h few) (match_node-walk ss json h)
