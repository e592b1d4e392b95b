-- ===== src/Json/Files.antt =====
-- `JSON::parseFile` and the conversions to numbers of json/JSON.cpp and json/Value.cpp.
use dumais_lib.Prelude.{
  ℕ, zero, suc, ◌≤◌, ◌≡◌, ◌≢◌, refl, ap, ◌∙◌, arith, Option, none, some, [], ◌∷◌, ◌++◌, Text,
  length, length-drop, take, drop, ◌==◌, ==_of_ne, if◌then◌else◌,
}
use dumais_lib.Json.Node.{value}
use dumais_lib.Json.Parse.{Run, done}
use dumais_lib.Json.Root.{Root, parse_root}

-- The text of a C string: up to its first NUL.
unfoldable pub up_to_nul : Text → Text
up_to_nul [] = []
up_to_nul (c ∷ s) = let rest = up_to_nul s in if c == 0 then [] else c ∷ rest

-- The bytes that a call of `fread` reads at most.
abbrev pub read_size : ℕ
read_size = 1023

-- The loop of `parseFile` on what is left of the file; `none` means that the fuel ran out.
unfoldable pub file_text : (fuel : ℕ) → Text → Option Text
unfolding up_to_nul
file_text fuel [] = some []
file_text zero (c ∷ s) = none
file_text (suc f) (c ∷ s) = elim (file_text f (drop read_size (c ∷ s))) [
  | none ↦ none
  | some rest ↦ some (up_to_nul (take read_size (c ∷ s)) ++ rest)
]

-- `parseFile`, with the bytes of the file, if it opens.
unfoldable pub parse_file : Root → Option Text → Option (Run Root)
unfolding file_text parse_root
parse_file r none = some (done r)
parse_file r (some content) = elim (file_text (length content) content) [
  | none ↦ none
  | some s ↦ some (parse_root r s)
]

-- `toInt` and `toUInt`, each as the 32 bits of its result, and `toDouble`: `atoi` and `atof` are those of
-- the C library.
module _ (atoi : Text → ℕ) where
  unfoldable pub to_int : Root → ℕ
  to_int (some (value s t)) = atoi s
  to_int r = 0

  unfoldable pub to_uint : Root → ℕ
  to_uint (some (value s t)) = atoi s
  to_uint r = 0

unfoldable pub to_double {ℓ} : {D : Type ℓ} → (atof : Text → D) → (nothing : D) → Root → D
to_double atof nothing (some (value s t)) = atof s
to_double atof nothing r = nothing

unfoldable pub HasNoZero : Text → Type 0
HasNoZero [] = Unit {0}
HasNoZero (c ∷ s) = (c ≢ 0) × HasNoZero s

up_to_nul-take : (n : ℕ) (s : Text) → HasNoZero s → up_to_nul (take n s) ≡ take n s
unfolding up_to_nul HasNoZero
up_to_nul-take zero s h = refl
up_to_nul-take (suc n) [] h = refl
up_to_nul-take (suc n) (c ∷ s) (ne, h) =
    rw (==_of_ne c 0 ne) (ap (λ t. c ∷ t) (up_to_nul-take n s h))

drop-HasNoZero : (n : ℕ) (s : Text) → HasNoZero s → HasNoZero (drop n s)
unfolding HasNoZero
drop-HasNoZero zero s h = h
drop-HasNoZero (suc n) [] h = tt
drop-HasNoZero (suc n) (c ∷ s) h = drop-HasNoZero n s h.1

take-drop : (n : ℕ) (s : Text) → take n s ++ drop n s ≡ s
take-drop zero s = refl
take-drop (suc n) [] = refl
take-drop (suc n) (c ∷ s) = ap (λ t. c ∷ t) (take-drop n s)

file_text-whole : (f : ℕ) (s : Text) → HasNoZero s → length s ≤ f → file_text f s ≡ some s
unfolding file_text
file_text-whole f [] h small = refl
file_text-whole zero (c ∷ s) h small = absurd (omega arith)
file_text-whole (suc f) (c ∷ s) h small =
    let rest =
      file_text-whole f (drop read_size (c ∷ s)) (drop-HasNoZero read_size (c ∷ s) h)
        (omega (arith, length-drop read_size (c ∷ s))) in
    rw (file_text, rest)
      (ap (λ t. some (t ++ drop read_size (c ∷ s))) (up_to_nul-take read_size (c ∷ s) h)
        ∙ ap (λ t. some t) (take-drop read_size (c ∷ s)))

-- A file without a NUL is parsed as its text is, however many reads it takes.
pub parse_file-parse :
    (r : Root) (content : Text)
    → HasNoZero content
    → parse_file r (some content) ≡ some (parse_root r content)
unfolding parse_file
parse_file-parse r content h =
    rw (parse_file, file_text-whole (length content) content h (omega arith)) refl
