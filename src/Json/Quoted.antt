-- ===== src/Json/Quoted.antt =====
-- Texts that may stand between two quotes: the scanners of json/Parser.cpp pass them whole.
use dumais_lib.Prelude.{
  ℕ, suc, Bool, true, false, not, ◌&&◌, [], ◌∷◌, ◌++◌, ◌≡◌, refl, arith, Text, length, ◌==◌, ◌≢◌,
}
use dumais_lib.Json.Scan.{quote, backslash, quote_len}
use dumais_lib.Json.Property.{c_string}
use dumais_lib.Json.Escape.{escape_char, escape_string}

-- No NUL, no quote but an escaped one, and no escape left open at the end.
abbrev pub is_closed : Text → Bool → Bool
is_closed [] escaped = not escaped
is_closed (c ∷ s) true = not (c == 0) && is_closed s false
is_closed (c ∷ s) false = not (c == 0) && not (c == quote) && is_closed s (c == backslash)

-- No byte of the text is NUL.
abbrev pub HasNoNul : Text → Type 0
HasNoNul [] = Unit {0}
HasNoNul (c ∷ s) = (c ≢ 0) × HasNoNul s

pub quote_len-is_closed :
    (k r : Text) (escaped : Bool)
    → is_closed k escaped ≡ true
    → quote_len (k ++ quote ∷ r) escaped ≡ suc (length k)
unfolding quote_len
quote_len-is_closed [] r true h = ground arith
quote_len-is_closed [] r false h = refl
quote_len-is_closed (c ∷ k) r true h = ground (arith, quote_len-is_closed k r false)
quote_len-is_closed (c ∷ k) r false h = ground (arith, quote_len-is_closed k r (c == backslash))

is_closed-escape_char :
    (c : ℕ) (s : Text) → c ≢ 0 → is_closed (escape_char c ++ s) false ≡ is_closed s false
unfolding escape_char
is_closed-escape_char c s h = ground arith

pub is_closed-escape_string : (s : Text) → HasNoNul s → is_closed (escape_string s) false ≡ true
unfolding escape_string
is_closed-escape_string [] h = refl
is_closed-escape_string (c ∷ s) (hc, hs) =
    rw (is_closed-escape_char c (escape_string s) hc) (is_closed-escape_string s hs)

pub c_string-append : (s r : Text) → HasNoNul s → c_string (s ++ r) ≡ s ++ c_string r
unfolding c_string
c_string-append [] r h = refl
c_string-append (c ∷ s) r (hc, hs) = ground (arith, c_string-append s r hs)

pub HasNoNul-append : (s t : Text) → HasNoNul s → HasNoNul t → HasNoNul (s ++ t)
HasNoNul-append [] t h k = k
HasNoNul-append (c ∷ s) t (hc, hs) k = (hc, HasNoNul-append s t hs k)

pub is_closed-HasNoNul : (k : Text) (escaped : Bool) → is_closed k escaped ≡ true → HasNoNul k
is_closed-HasNoNul [] e h = tt
is_closed-HasNoNul (c ∷ k) true h = (ground arith, is_closed-HasNoNul k false (ground arith))
is_closed-HasNoNul (c ∷ k) false h =
    (ground arith, is_closed-HasNoNul k (c == backslash) (ground arith))
