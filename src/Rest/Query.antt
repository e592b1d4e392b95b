-- ===== src/Rest/Query.antt =====
-- Queries, and the parameters that rest/RESTParameters.cpp reads from them.
use dumais_lib.Prelude.{
  ℕ, ◌≡◌, refl, not, ap, ◌∙◌, arith, Bool, true, false, ◌||◌, [], ◌∷◌, ◌++◌, Text, ◌==◌,
  if◌then◌else◌, append_assoc, append-nil, ◌&&◌, none, some, Bool-cases, inl, inr,
}
use dumais_lib.Json.Number.{text_eq, text_eq_sound}
use dumais_lib.Rest.Parameters.{
  Values, lookup, Scan, is_end, at_end, save, scan_char, scan, parameters,
}
use dumais_lib.Rest.Stored.{last_value, lookup-store}

-- A character that stands for itself in a query.
abbrev pub is_plain : ℕ → Bool
is_plain c = not (c == b'=' || c == b'&' || is_end c)

unfoldable pub ArePlain : Text → Type 0
ArePlain [] = Unit {0}
ArePlain (c ∷ s) = (is_plain c ≡ true) × ArePlain s

-- The text of a query.
unfoldable pub render : Values → Text
render [] = []
render ((k, v) ∷ []) = k ++ b'=' ∷ v
render ((k, v) ∷ p ∷ ps) = k ++ b'=' ∷ (v ++ b'&' ∷ render (p ∷ ps))

unfoldable pub ArePlainPairs : Values → Type 0
unfolding ArePlain
ArePlainPairs [] = Unit {0}
ArePlainPairs ((k, v) ∷ ps) = ArePlain k × ArePlain v × ArePlainPairs ps

module _ (registered : Text → Bool) where
  -- The parameters that are saved one after the other.
  unfoldable pub save_all : Values → Values → Values
  unfolding save
  save_all [] m = m
  save_all ((k, v) ∷ ps) m = save_all ps (save registered k v m)

  -- The loop behind a character.
  abbrev after : Scan → Text → Values
  after st s = if at_end s then save registered st.key st.value st.found else scan registered st s

  at_end-key : (k t : Text) → ArePlain k → at_end (k ++ b'=' ∷ t) ≡ false
  unfolding ArePlain
  at_end-key [] t h = refl
  at_end-key (c ∷ k) t (hc, hk) = ground arith

  at_end-render :
      (p : Text × Text) (ps : Values) → ArePlainPairs (p ∷ ps) → at_end (render (p ∷ ps)) ≡ false
  unfolding render ArePlainPairs
  at_end-render (k, v) [] (hk, hv, h) = at_end-key k v hk
  at_end-render (k, v) (p ∷ ps) (hk, hv, h) = at_end-key k (v ++ b'&' ∷ render (p ∷ ps)) hk

  not_end : (c : ℕ) → is_plain c ≡ true → is_end c ≡ false
  not_end c h = ground arith

  scan_step :
      (c : ℕ) (st : Scan) (s : Text)
      → is_plain c ≡ true
      → scan registered st (c ∷ s) ≡ after (scan_char registered c st) s
  unfolding scan
  scan_step c st s h = let e : (c == b' ') ≡ false = ground arith in rw e

  scan_char-key :
      (c : ℕ) (pre : Text) (m : Values)
      → is_plain c ≡ true
      → scan_char registered c (record { key_flag = true; key = pre; value = []; found = m })
        ≡ record { key_flag = true; key = pre ++ c ∷ []; value = []; found = m }
  unfolding scan_char
  scan_char-key c pre m h =
      let e : (c == b'=') ≡ false = ground arith in
      let e' : (c == b'&' || is_end c) ≡ false = ground arith in rw (e, e')

  scan_char-value :
      (c : ℕ) (key pre : Text) (m : Values)
      → is_plain c ≡ true
      → scan_char registered c (record { key_flag = false; key = key; value = pre; found = m })
        ≡ record { key_flag = false; key = key; value = pre ++ c ∷ []; found = m }
  unfolding scan_char
  scan_char-value c key pre m h =
      let e : (c == b'=') ≡ false = ground arith in
      let e' : (c == b'&' || is_end c) ≡ false = ground arith in rw (e, e')

  scan-key :
      (pre k t : Text) (m : Values)
      → ArePlain k
      → scan registered
          (record { key_flag = true; key = pre; value = []; found = m })
          (k ++ b'=' ∷ t)
        ≡ after (record { key_flag = false; key = pre ++ k; value = []; found = m }) t
  unfolding ArePlain
  scan-key pre [] t m h = unfold scan in unfold scan_char in rw (append-nil pre)
  scan-key pre (c ∷ k) t m (hc, hk) =
      scan_step c (record { key_flag = true; key = pre; value = []; found = m }) (k ++ b'=' ∷ t) hc
      ∙ rw (scan_char-key c pre m hc, at_end-key k t hk) (scan-key (pre ++ c ∷ []) k t m hk)
      ∙ ap (λ q. after (record { key_flag = false; key = q; value = []; found = m }) t)
          (append_assoc pre (c ∷ []) k)

  after-value :
      (key pre v : Text) (m : Values)
      → ArePlain v
      → after (record { key_flag = false; key = key; value = pre; found = m }) v
        ≡ save registered key (pre ++ v) m
  unfolding ArePlain
  after-value key pre [] m h = rw (append-nil pre)
  after-value key pre (c ∷ v) m (hc, hv) = rw (not_end c hc) (
      scan_step c (record { key_flag = false; key = key; value = pre; found = m }) v hc
      ∙ rw (scan_char-value c key pre m hc) (after-value key (pre ++ c ∷ []) v m hv)
      ∙ ap (λ q. save registered key q m) (append_assoc pre (c ∷ []) v))

  after-value_next :
      (key pre v t : Text) (m : Values)
      → ArePlain v
      → after (record { key_flag = false; key = key; value = pre; found = m }) (v ++ b'&' ∷ t)
        ≡ after
            (record {
              key_flag = true;
              key = [];
              value = [];
              found = save registered key (pre ++ v) m;
            })
            t
  unfolding ArePlain
  after-value_next key pre [] t m h = unfold scan in unfold scan_char in rw (append-nil pre)
  after-value_next key pre (c ∷ v) t m (hc, hv) = rw (not_end c hc) (
      scan_step c (record { key_flag = false; key = key; value = pre; found = m }) (v ++ b'&' ∷ t)
        hc
      ∙ rw (scan_char-value c key pre m hc) (after-value_next key (pre ++ c ∷ []) v t m hv)
      ∙ ap
          (λ q.
            after
              (record { key_flag = true; key = []; value = []; found = save registered key q m }) t)
          (append_assoc pre (c ∷ []) v))

  scan-render :
      (p : Text × Text) (ps m : Values)
      → ArePlainPairs (p ∷ ps)
      → scan registered
          (record { key_flag = true; key = []; value = []; found = m })
          (render (p ∷ ps))
        ≡ save_all (p ∷ ps) m
  unfolding render save_all ArePlainPairs
  scan-render (k, v) [] m (hk, hv, h) = scan-key [] k v m hk ∙ after-value k [] v m hv
  scan-render (k, v) (p ∷ ps) m (hk, hv, h) =
      scan-key [] k (v ++ b'&' ∷ render (p ∷ ps)) m hk
      ∙ after-value_next k [] v (render (p ∷ ps)) m hv
      ∙ rw (at_end-render p ps h) (scan-render p ps (save registered k v m) h)

  parameters-save_all :
      (ps : Values) → ArePlainPairs ps → parameters registered (render ps) ≡ save_all ps []
  unfolding parameters
  parameters-save_all [] h = unfold render in unfold scan in unfold save_all in refl
  parameters-save_all (p ∷ ps) h = scan-render p ps [] h

  lookup-save :
      (k v j : Text) (m : Values)
      → lookup j (save registered k v m)
        ≡ (if text_eq k j && registered j then some v else lookup j m)
  unfolding save
  lookup-save k v j m = elim (Bool-cases (text_eq k j)) [
    | inl e ↦
        let same : registered k ≡ registered j = ap registered (text_eq_sound k j e) in
        elim (Bool-cases (registered j)) [
          | inl r ↦ rw (e, r, same ∙ r) (lookup-store k v j m ∙ (rw e refl))
          | inr r ↦ rw (e, r, same ∙ r) refl
        ]
    | inr e ↦ elim (Bool-cases (registered k)) [
      | inl r ↦ rw (e, r) (lookup-store k v j m ∙ (rw e refl))
      | inr r ↦ rw (e, r) refl
    ]
  ]

  lookup-save_all :
      (ps m : Values) (j : Text)
      → lookup j (save_all ps m)
        ≡ (if registered j then last_value j ps (lookup j m) else lookup j m)
  unfolding save_all last_value
  lookup-save_all [] m j = elim (Bool-cases (registered j)) [
    | inl r ↦ rw r refl
    | inr r ↦ rw r refl
  ]
  lookup-save_all ((k, v) ∷ ps) m j =
      lookup-save_all ps (save registered k v m) j
      ∙ ap (λ o. if registered j then last_value j ps o else o) (lookup-save k v j m)
      ∙ (elim (Bool-cases (registered j)) [
        | inl r ↦ elim (Bool-cases (text_eq k j)) [
          | inl e ↦ rw (r, e) refl
          | inr e ↦ rw (r, e) refl
        ]
        | inr r ↦ elim (Bool-cases (text_eq k j)) [
          | inl e ↦ rw (r, e) refl
          | inr e ↦ rw (r, e) refl
        ]
      ])

  -- From a rendered query the parameters have under a registered name the last value that the
  -- query has for it, and nothing under a name that the query has not or that is not
  -- registered, if no name and no value has one of the characters `=`, `&`, space, carriage
  -- return and line feed.
  pub parameters-render :
      (ps : Values) (k : Text)
      → ArePlainPairs ps
      → lookup k (parameters registered (render ps))
        ≡ (if registered k then last_value k ps none else none)
  unfolding lookup
  parameters-render ps k h = ap (lookup k) (parameters-save_all ps h) ∙ lookup-save_all ps [] k
