-- ===== src/Rest/Stored.antt =====
-- What the `std::map` of rest/RESTParameters.cpp has after values have been stored one after the other.
use dumais_lib.Prelude.{
  ◌≡◌, refl, subst, ◌∙◌, true, false, Option, some, [], ◌∷◌, Text, if◌then◌else◌, Bool-cases, inl,
  inr,
}
use dumais_lib.Json.Number.{text_eq, text_eq_sound, text_eq_comm}
use dumais_lib.Rest.Parameters.{Values, lookup, store}

-- The value of the last pair of a name, and `known` if there is none.
unfoldable pub last_value : Text → Values → Option Text → Option Text
last_value k [] known = known
last_value k ((name, value) ∷ ps) known =
    last_value k ps (if text_eq name k then some value else known)

pub lookup-store :
    (k v j : Text) (m : Values)
    → lookup j (store k v m) ≡ (if text_eq k j then some v else lookup j m)
unfolding lookup store
lookup-store k v j [] = refl
lookup-store k v j ((i, w) ∷ m) = elim (Bool-cases (text_eq i k)) [
  | inl e ↦
      let same : i ≡ k = text_eq_sound i k e in
      elim (Bool-cases (text_eq i j)) [
        | inl f ↦
            let g : text_eq k j ≡ true = subst (λ s. text_eq s j ≡ true) same f in rw (e, f, g) refl
        | inr f ↦
            let g : text_eq k j ≡ false = subst (λ s. text_eq s j ≡ false) same f in
            rw (e, f, g) refl
      ]
  | inr e ↦ elim (Bool-cases (text_eq i j)) [
    | inl f ↦
        let g : text_eq k i ≡ false = text_eq_comm k i ∙ e in
        let h : text_eq k j ≡ false = subst (λ s. text_eq k s ≡ false) (text_eq_sound i j f) g in
        rw (e, f, h) refl
    | inr f ↦ rw (e, f) (lookup-store k v j m)
  ]
]
