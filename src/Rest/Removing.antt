-- ===== src/Rest/Removing.antt =====
-- What `removeCallBack` of rest/RESTEngine.cpp undoes.
use dumais_lib.Prelude.{
  ℕ, ◌≡◌, refl, ap, ap₂, sym, ◌∙◌, arith, true, false, Option, none, some, subst, List, [], ◌∷◌,
  ◌++◌, Text, map, Bool-cases, inl, inr, ◌==◌,
}
use dumais_lib.Json.Number.{text_eq, text_eq_sound}
use dumais_lib.Rest.Engine.{
  Callback, Resource, Callbacks, to_upper, resources, text_lt, insert_method, push_resource,
  append_resource, add_call_back, erase_resource, remove_call_back,
}
use dumais_lib.Rest.Dispatch.{
  list_of, resources-eq, resources-ne, list_of-eq, list_of-some, list_of-nil,
}

-- No resource has the callback of the pointer.
unfoldable pub AreOthers : ℕ → List Resource → Type 0
AreOthers k [] = Unit {0}
AreOthers k (r ∷ rs) = ((r.callback.pointer == k) ≡ false) × AreOthers k rs

unfoldable pub IsAbsent : ℕ → Callbacks → Type 0
unfolding AreOthers
IsAbsent k [] = Unit {0}
IsAbsent k ((m, rs) ∷ cs) = AreOthers k rs × IsAbsent k cs

erase_resource-others : (k : ℕ) (rs : List Resource) → AreOthers k rs → erase_resource k rs ≡ rs
unfolding AreOthers erase_resource
erase_resource-others k [] h = refl
erase_resource-others k (r ∷ rs) (e, h) = rw e (ap (λ l. r ∷ l) (erase_resource-others k rs h))

erase_resource-append :
    (k : ℕ) (rs : List Resource) (r : Resource)
    → AreOthers k rs
    → (r.callback.pointer == k) ≡ true
    → erase_resource k (rs ++ r ∷ []) ≡ rs
unfolding AreOthers erase_resource
erase_resource-append k [] r h e = rw e refl
erase_resource-append k (s ∷ rs) r (ne, h) e =
    rw ne (ap (λ l. s ∷ l) (erase_resource-append k rs r h e))

remove_call_back-absent : (k : ℕ) (cs : Callbacks) → IsAbsent k cs → remove_call_back k cs ≡ cs
unfolding IsAbsent remove_call_back
remove_call_back-absent k [] h = refl
remove_call_back-absent k ((m, rs) ∷ cs) (h, later) =
    ap₂ (λ l ds. (m, l) ∷ ds) (erase_resource-others k rs h) (remove_call_back-absent k cs later)

-- What a list of resources is behind a method that is not the one asked for.
list_of-cons :
    (m method : Text) (rs : List Resource) (cs ds : Callbacks)
    → list_of m cs ≡ list_of m ds
    → list_of m ((method, rs) ∷ cs) ≡ list_of m ((method, rs) ∷ ds)
list_of-cons m method rs cs ds h = elim (Bool-cases (text_eq method m)) [
  | inl e ↦
      list_of-some m ((method, rs) ∷ cs) rs (resources-eq m method rs cs e)
      ∙ sym (list_of-some m ((method, rs) ∷ ds) rs (resources-eq m method rs ds e))
  | inr e ↦
      list_of-eq m ((method, rs) ∷ cs) cs (resources-ne m method rs cs e)
      ∙ h
      ∙ sym (list_of-eq m ((method, rs) ∷ ds) ds (resources-ne m method rs ds e))
]

-- A method without resources is as good as none.
list_of-empty :
    (m method : Text) (cs : Callbacks)
    → resources method cs ≡ none
    → list_of m ((method, []) ∷ cs) ≡ list_of m cs
list_of-empty m method cs h = elim (Bool-cases (text_eq method m)) [
  | inl e ↦
      let same : method ≡ m = text_eq_sound method m e in
      let nothing : resources m cs ≡ none = subst (λ n. resources n cs ≡ none) same h in
      list_of-some m ((method, []) ∷ cs) [] (resources-eq m method [] cs e)
      ∙ sym (list_of-eq m cs [] (nothing ∙ unfold resources in refl) ∙ list_of-nil m)
  | inr e ↦ list_of-eq m ((method, []) ∷ cs) cs (resources-ne m method [] cs e)
]

inserted :
    (k : ℕ) (m method : Text) (r : Resource) (cs : Callbacks)
    → (r.callback.pointer == k) ≡ true
    → IsAbsent k cs
    → resources method cs ≡ none
    → list_of m (remove_call_back k (insert_method method (r ∷ []) cs)) ≡ list_of m cs
unfolding insert_method remove_call_back IsAbsent erase_resource
inserted k m method r [] e h new = rw e (list_of-empty m method [] new)
inserted k m method r ((n, rs) ∷ cs) e (h, later) new = elim (Bool-cases (text_lt method n)) [
  | inl t ↦
      rw (t, e)
        (ap (λ ds. list_of m ((method, []) ∷ ds))
            (remove_call_back-absent k ((n, rs) ∷ cs) (h, later))
          ∙ list_of-empty m method ((n, rs) ∷ cs) new)
  | inr t ↦ elim (Bool-cases (text_eq n method)) [
    | inl u ↦ let f : some rs ≡ none = sym (resources-eq method n rs cs u) ∙ new in absurd (cc)
    | inr u ↦ rw t (
        ap (λ l. list_of m ((n, l) ∷ remove_call_back k (insert_method method (r ∷ []) cs)))
          (erase_resource-others k rs h)
        ∙ list_of-cons m n rs (remove_call_back k (insert_method method (r ∷ []) cs)) cs
            (inserted k m method r cs e later (sym (resources-ne method n rs cs u) ∙ new)))
  ]
]

pushed :
    (k : ℕ) (m method : Text) (r : Resource) (cs : Callbacks)
    → (r.callback.pointer == k) ≡ true
    → IsAbsent k cs
    → list_of m (remove_call_back k (push_resource method r cs)) ≡ list_of m cs
unfolding push_resource remove_call_back IsAbsent erase_resource
pushed k m method r [] e h = refl
pushed k m method r ((n, rs) ∷ cs) e (h, later) = elim (Bool-cases (text_eq n method)) [
  | inl t ↦ rw t (
      ap₂ (λ l ds. list_of m ((n, l) ∷ ds)) (erase_resource-append k rs r h e)
        (remove_call_back-absent k cs later))
  | inr t ↦ rw t (
      ap (λ l. list_of m ((n, l) ∷ remove_call_back k (push_resource method r cs)))
        (erase_resource-others k rs h)
      ∙ list_of-cons m n rs (remove_call_back k (push_resource method r cs)) cs
          (pushed k m method r cs e later))
]

removed :
    (k : ℕ) (m method : Text) (r : Resource) (cs : Callbacks)
    → (r.callback.pointer == k) ≡ true
    → IsAbsent k cs
    → list_of m (remove_call_back k (append_resource method r cs)) ≡ list_of m cs
unfolding append_resource resources
removed k m method r cs e h = from (resources method cs) refl
  where
    from :
        (o : Option (List Resource))
        → resources method cs ≡ o
        → list_of m (remove_call_back k (append_resource method r cs)) ≡ list_of m cs
    from none new = rw (append_resource, new) (inserted k m method r cs e h new)
    from (some ls) there = rw (append_resource, there) (pushed k m method r cs e h)

-- After a callback has been added for a URI and a method and has been removed, every method has
-- the resources again that it had before, in their order, if the engine did not have the
-- callback.
pub remove_call_back-add_call_back :
    (m uri method : Text) (p : Callback) (cs : Callbacks)
    → IsAbsent p.pointer cs
    → list_of m (remove_call_back p.pointer (add_call_back uri method p cs)) ≡ list_of m cs
unfolding add_call_back
remove_call_back-add_call_back m uri method p cs h =
    removed p.pointer m (map to_upper method) (record { uri = uri; callback = p }) cs (ground arith)
      h
