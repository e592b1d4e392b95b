-- ===== src/Json/Number.antt =====
-- `Parser::validateNakedValue` of json/Parser.cpp: what an unquoted value is.
use dumais_lib.Prelude.{
  ℕ, ◌+◌, ◌≡◌, ◌↔◌, refl, arith, Bool, true, false, ◌&&◌, ◌||◌, [], ◌∷◌, map, Text, codes, leb,
  ◌==◌, if◌then◌else◌,
}
use dumais_lib.Json.Types.{SubType, illegal, double, int, uint, bool, is_double}

-- `tolower` of the C locale.
unfoldable pub to_lower : ℕ → ℕ
to_lower c = if leb b'A' c && leb c b'Z' then c + 32 else c

-- `==` of `std::string`.
unfoldable pub text_eq : Text → Text → Bool
text_eq [] [] = true
text_eq [] (d ∷ t) = false
text_eq (c ∷ s) [] = false
text_eq (c ∷ s) (d ∷ t) = c == d && text_eq s t

abbrev pub is_digit : ℕ → Bool
is_digit c = leb 0x30 c && leb c 0x39

-- `nrv` behind a legal character: a minus sign gives UInt, a dot gives Double.
abbrev pub next_type : ℕ → SubType → SubType
next_type c nrv =
    if c == b'-' then (if is_double nrv then nrv else uint) else if c == b'.' then double else nrv

-- The loop over the characters: `first` is `i == 0`, and `nrv` is the type found so far.
unfoldable pub validate_loop : Text → (first dot : Bool) → SubType → SubType
validate_loop [] first dot nrv = nrv
validate_loop (c ∷ s) first dot nrv =
    let rest = validate_loop s false (dot || c == b'.') (next_type c nrv) in
    if c == b'-'
    then (if first then rest else illegal)
    else if c == b'.'
    then (if dot then illegal else rest)
    else if is_digit c
    then rest
    else illegal

unfoldable pub is_bool_text : Text → Bool
unfolding to_lower text_eq
is_bool_text s = text_eq (map to_lower s) (codes "true") || text_eq (map to_lower s) (codes "false")

unfoldable pub validate_naked_value : Text → SubType
unfolding is_bool_text validate_loop
validate_naked_value [] = illegal
validate_naked_value (c ∷ s) =
    if is_bool_text (c ∷ s) then bool else validate_loop (c ∷ s) true false int

pub text_eq_sound : (s t : Text) → text_eq s t ≡ true → s ≡ t
unfolding text_eq
text_eq_sound [] [] h = refl
text_eq_sound [] (d ∷ t) h = cc
text_eq_sound (c ∷ s) [] h = cc
text_eq_sound (c ∷ s) (d ∷ t) h = ground (arith, text_eq_sound s t)

pub text_eq_refl : (s : Text) → text_eq s s ≡ true
unfolding text_eq
text_eq_refl [] = refl
text_eq_refl (c ∷ s) = ground (arith, text_eq_refl s)

-- `==` of two texts decides whether they are equal.
pub text_eq_iff : (s t : Text) → (text_eq s t ≡ true) ↔ (s ≡ t)
text_eq_iff s t = (text_eq_sound s t, λ e. rw (← e) (text_eq_refl s))

pub text_eq_comm : (s t : Text) → text_eq s t ≡ text_eq t s
unfolding text_eq
text_eq_comm [] [] = refl
text_eq_comm [] (d ∷ t) = refl
text_eq_comm (c ∷ s) [] = refl
text_eq_comm (c ∷ s) (d ∷ t) = ground (arith, text_eq_comm s t)
