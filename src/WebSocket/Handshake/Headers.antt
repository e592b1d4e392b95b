-- ===== src/WebSocket/Handshake/Headers.antt =====
-- The texts of requests, and what websocket/HTTPProtocolParser.cpp reads from them.
use dumais_lib.Prelude.{
  ℕ, ◌≡◌, ◌≢◌, refl, ap, sym, ◌∙◌, arith, Bool, true, false, not, ◌&&◌, ◌||◌, [], ◌∷◌, ◌++◌, Text,
  codes, map, append_assoc, append-nil, ◌==◌, ==_of_ne,
}
use dumais_lib.Json.Number.{to_lower}
use dumais_lib.Rest.Parameters.{Values, store}
use dumais_lib.WebSocket.Handshake.{HeaderScan, is_empty, end_line, scan_header, scan_headers}

abbrev pub is_name_char : ℕ → Bool
is_name_char c = not (c == b':' || (c == 13 || c == 10))

abbrev pub is_value_char : ℕ → Bool
is_value_char c = not (c == 13 || c == 10)

abbrev pub is_word_char : ℕ → Bool
is_word_char c = not (c == b' ' || (c == 13 || c == 10))

unfoldable pub All : (ℕ → Bool) → Text → Type 0
All p [] = Unit {0}
All p (c ∷ s) = (p c ≡ true) × All p s

-- A text whose first character is no space.
abbrev pub StartsPlain : Text → Type 0
StartsPlain [] = ⊥
StartsPlain (c ∷ s) = c ≢ b' '

abbrev pub IsField : Text × Text → Type 0
IsField (name, value) =
    (All is_name_char name × (is_empty name ≡ false))
    × (All is_value_char value × StartsPlain value)

unfoldable pub AreFields : Values → Type 0
AreFields [] = Unit {0}
AreFields (field ∷ fields) = IsField field × AreFields fields

-- The text behind the first line.
unfoldable pub field_lines : Values → Text
field_lines [] = 13 ∷ 10 ∷ []
field_lines ((name, value) ∷ fields) =
    name ++ (b':' ∷ b' ' ∷ (value ++ (13 ∷ 10 ∷ field_lines fields)))

unfoldable pub render_request : (type resource : Text) → Values → Text
unfolding field_lines
render_request type resource fields =
    type ++ (b' ' ∷ (resource ++ (codes " HTTP/1.1" ++ (13 ∷ 10 ∷ field_lines fields))))

-- The headers that are stored one after the other, their names in small letters.
unfoldable pub store_fields : Values → Values → Values
unfolding store
store_fields [] m = m
store_fields ((name, value) ∷ fields) m = store_fields fields (store (map to_lower name) value m)

abbrev pub at_line : Values → HeaderScan
at_line m = record { is_header = true; header = []; value = []; headers = m }

abbrev in_name : Text → Values → HeaderScan
in_name h m = record { is_header = true; header = h; value = []; headers = m }

abbrev in_value : Text → Text → Values → HeaderScan
in_value h v m = record { is_header = false; header = h; value = v; headers = m }

is_empty-snoc : (s : Text) (c : ℕ) → is_empty (s ++ c ∷ []) ≡ false
is_empty-snoc [] c = refl
is_empty-snoc (d ∷ s) c = refl

scan_header-name :
    (c : ℕ) (h : Text) (m : Values)
    → is_name_char c ≡ true
    → scan_header c (in_name h m) ≡ in_name (h ++ c ∷ []) m
unfolding scan_header
scan_header-name c h m p =
    let lf : (c == 10) ≡ false = ground arith in
    let cr : (c == 13) ≡ false = ground arith in
    let colon : (c == b':') ≡ false = ground arith in rw (scan_header, lf, cr, colon) refl

scan_header-value :
    (c : ℕ) (h v : Text) (m : Values)
    → is_value_char c ≡ true
    → (is_empty v && c == b' ') ≡ false
    → scan_header c (in_value h v m) ≡ in_value h (v ++ c ∷ []) m
unfolding scan_header
scan_header-value c h v m p kept =
    let lf : (c == 10) ≡ false = ground arith in
    let cr : (c == 13) ≡ false = ground arith in rw (scan_header, lf, cr, kept) refl

pub scan_headers-name :
    (name h t : Text) (m : Values)
    → All is_name_char name
    → scan_headers (name ++ t) (in_name h m) ≡ scan_headers t (in_name (h ++ name) m)
unfolding All scan_headers
scan_headers-name [] h t m p = ap (λ k. scan_headers t (in_name k m)) (sym (append-nil h))
scan_headers-name (c ∷ name) h t m (pc, p) =
    ap (scan_headers (name ++ t)) (scan_header-name c h m pc)
    ∙ (scan_headers-name name (h ++ c ∷ []) t m p
        ∙ ap (λ k. scan_headers t (in_name k m)) (append_assoc h (c ∷ []) name))

scan_headers-more :
    (value h v t : Text) (m : Values)
    → is_empty v ≡ false
    → All is_value_char value
    → scan_headers (value ++ t) (in_value h v m) ≡ scan_headers t (in_value h (v ++ value) m)
unfolding All scan_headers
scan_headers-more [] h v t m some_v p =
    ap (λ k. scan_headers t (in_value h k m)) (sym (append-nil v))
scan_headers-more (c ∷ value) h v t m some_v (pc, p) =
    ap (scan_headers (value ++ t)) (scan_header-value c h v m pc (rw some_v refl))
    ∙ (scan_headers-more value h (v ++ c ∷ []) t m (is_empty-snoc v c) p
        ∙ ap (λ k. scan_headers t (in_value h k m)) (append_assoc v (c ∷ []) value))

pub scan_headers-value :
    (value h t : Text) (m : Values)
    → All is_value_char value
    → StartsPlain value
    → scan_headers (value ++ t) (in_value h [] m) ≡ scan_headers t (in_value h value m)
unfolding All scan_headers
scan_headers-value [] h t m p starts = absurd starts
scan_headers-value (c ∷ value) h t m (pc, p) starts =
    ap (scan_headers (value ++ t)) (scan_header-value c h [] m pc (==_of_ne c b' ' starts))
    ∙ scan_headers-more value h (c ∷ []) t m refl p

-- One line, whatever has been read of a header's name before it.
pub scan_headers-line :
    (h name value t : Text) (m : Values)
    → IsField (name, value)
    → scan_headers (name ++ (b':' ∷ b' ' ∷ (value ++ (13 ∷ 10 ∷ t)))) (in_name h m)
      ≡ scan_headers t (at_line (store (map to_lower (h ++ name)) value m))
unfolding scan_headers scan_header end_line
scan_headers-line h name value t m ((pn, named), (pv, starts)) =
    scan_headers-name name h (b':' ∷ b' ' ∷ (value ++ (13 ∷ 10 ∷ t))) m pn
    ∙ (scan_headers-value value (h ++ name) (13 ∷ 10 ∷ t) m pv starts
        ∙ rw (some_name h name named, some_value value starts) refl)
  where
    some_name : (h name : Text) → is_empty name ≡ false → is_empty (h ++ name) ≡ false
    some_name [] name e = e
    some_name (c ∷ h) name e = refl

    some_value : (value : Text) → StartsPlain value → is_empty value ≡ false
    some_value [] p = absurd p
    some_value (c ∷ value) p = refl

-- A line without a value leaves its name to the next line.
end_line-no_value : (h : Text) (m : Values) → end_line (in_value h [] m) ≡ in_name h m
unfolding end_line
end_line-no_value h m = rw (end_line, nothing (not (is_empty h))) refl
  where
    nothing : (b : Bool) → (b && false) ≡ false
    nothing true = refl
    nothing false = refl

-- A header without a value leaves its name to the next line: that line's header is stored under
-- both names together.
pub scan_headers-empty_value :
    (name next value t : Text) (m : Values)
    → All is_name_char name
    → IsField (next, value)
    → scan_headers
        (name ++ (b':' ∷ 13 ∷ 10 ∷ (next ++ (b':' ∷ b' ' ∷ (value ++ (13 ∷ 10 ∷ t))))))
        (at_line m)
      ≡ scan_headers t (at_line (store (map to_lower (name ++ next)) value m))
unfolding scan_headers scan_header
scan_headers-empty_value name next value t m p field =
    scan_headers-name name [] _ m p
    ∙ (ap (scan_headers (next ++ (b':' ∷ b' ' ∷ (value ++ (13 ∷ 10 ∷ t)))))
          (end_line-no_value name m)
        ∙ scan_headers-line name next value t m field)

pub scan_headers-fields :
    (fields m : Values)
    → AreFields fields
    → scan_headers (field_lines fields) (at_line m) ≡ at_line (store_fields fields m)
unfolding field_lines store_fields AreFields
scan_headers-fields [] m p = unfold scan_headers in unfold scan_header in unfold end_line in refl
scan_headers-fields ((name, value) ∷ fields) m (is, p) =
    scan_headers-line [] name value (field_lines fields) m is
    ∙ scan_headers-fields fields (store (map to_lower name) value m) p
