-- ===== src/Rest/Dispatch.antt =====
-- Which callback of rest/RESTEngine.cpp a request reaches.
use dumais_lib.Prelude.{
  ◌≡◌, refl, ap, sym, ◌∙◌, Bool, true, false, Option, none, some, List, [], ◌∷◌, ◌++◌, Text, map,
  Bool-cases, inl, inr,
}
use dumais_lib.Json.Number.{text_eq, text_eq_refl}
use dumais_lib.Json.Node.{Node}
use dumais_lib.Rest.Engine.{
  Callback, Resource, Callbacks, to_upper, resources, text_lt, insert_method, push_resource,
  append_resource, add_call_back, url_parts, first_match, invoke, call,
}

-- The resources of a method, none if it is not there.
unfoldable pub list_of : Text → Callbacks → List Resource
unfolding resources
list_of method cs = elim (resources method cs) [ none ↦ [] | some rs ↦ rs ]

pub resources-eq :
    (method m : Text) (rs : List Resource) (cs : Callbacks)
    → text_eq m method ≡ true
    → resources method ((m, rs) ∷ cs) ≡ some rs
unfolding resources
resources-eq method m rs cs e = rw e refl

pub resources-ne :
    (method m : Text) (rs : List Resource) (cs : Callbacks)
    → text_eq m method ≡ false
    → resources method ((m, rs) ∷ cs) ≡ resources method cs
unfolding resources
resources-ne method m rs cs e = rw e refl

pub list_of-eq :
    (method : Text) (cs ds : Callbacks)
    → resources method cs ≡ resources method ds
    → list_of method cs ≡ list_of method ds
unfolding list_of
list_of-eq method cs ds h = rw (list_of, h) refl

pub list_of-some :
    (method : Text) (cs : Callbacks) (rs : List Resource)
    → resources method cs ≡ some rs
    → list_of method cs ≡ rs
unfolding list_of
list_of-some method cs rs h = rw (list_of, h) refl

pub list_of-nil : (method : Text) → list_of method [] ≡ []
unfolding list_of resources
list_of-nil method = refl

pub resources-insert_method :
    (method : Text) (r : Resource) (cs : Callbacks)
    → resources method cs ≡ none
    → resources method (insert_method method (r ∷ []) cs) ≡ some (r ∷ [])
unfolding insert_method
resources-insert_method method r [] h = resources-eq method method (r ∷ []) [] (text_eq_refl method)
resources-insert_method method r ((m, rs) ∷ cs) h = elim (Bool-cases (text_lt method m)) [
  | inl e ↦ rw e (resources-eq method method (r ∷ []) ((m, rs) ∷ cs) (text_eq_refl method))
  | inr e ↦ elim (Bool-cases (text_eq m method)) [
    | inl t ↦ let f : some rs ≡ none = sym (resources-eq method m rs cs t) ∙ h in absurd (cc)
    | inr t ↦ rw e (
        resources-ne method m rs (insert_method method (r ∷ []) cs) t
        ∙ resources-insert_method method r cs (sym (resources-ne method m rs cs t) ∙ h))
  ]
]

resources-push_resource :
    (method : Text) (r : Resource) (cs : Callbacks) (ls : List Resource)
    → resources method cs ≡ some ls
    → resources method (push_resource method r cs) ≡ some (ls ++ r ∷ [])
unfolding push_resource
resources-push_resource method r [] ls h =
    absurd (let f : none ≡ some ls = unfold resources in h in cc)
resources-push_resource method r ((m, rs) ∷ cs) ls h = elim (Bool-cases (text_eq m method)) [
  | inl e ↦
      let f : some rs ≡ some ls = sym (resources-eq method m rs cs e) ∙ h in
      let g : rs ≡ ls = cc in
      rw e (resources-eq method m (rs ++ r ∷ []) cs e ∙ ap (λ l. some (l ++ r ∷ [])) g)
  | inr ne ↦ rw ne (
      resources-ne method m rs (push_resource method r cs) ne
      ∙ resources-push_resource method r cs ls (sym (resources-ne method m rs cs ne) ∙ h))
]

resources-append :
    (method : Text) (r : Resource) (cs : Callbacks)
    → resources method (append_resource method r cs) ≡ some (list_of method cs ++ r ∷ [])
unfolding append_resource resources list_of
resources-append method r cs = from (resources method cs) refl
  where
    from :
        (o : Option (List Resource))
        → resources method cs ≡ o
        → resources method (append_resource method r cs) ≡ some (list_of method cs ++ r ∷ [])
    from none e =
        rw (append_resource, e)
          (resources-insert_method method r cs e
            ∙ ap (λ l. some (l ++ r ∷ []))
                (sym (list_of-eq method cs [] (e ∙ unfold resources in refl) ∙ list_of-nil method)))
    from (some ls) e =
        rw (append_resource, e)
          (resources-push_resource method r cs ls e
            ∙ ap (λ l. some (l ++ r ∷ [])) (sym (list_of-some method cs ls e)))

module _ (matches : Text → Text → Bool) where
  first_match-append_found :
      (path : Text) (rs : List Resource) (r : Resource) (p : Callback)
      → first_match matches path rs ≡ some p
      → first_match matches path (rs ++ r ∷ []) ≡ some p
  unfolding first_match
  first_match-append_found path [] r p h = cc
  first_match-append_found path (s ∷ rs) r p h = elim (Bool-cases (matches s.uri path)) [
    | inl e ↦ rw e (rw e at h)
    | inr ne ↦ rw ne (first_match-append_found path rs r p (rw ne at h))
  ]

  first_match-append_new :
      (path : Text) (rs : List Resource) (r : Resource)
      → first_match matches path rs ≡ none
      → matches r.uri path ≡ true
      → first_match matches path (rs ++ r ∷ []) ≡ some r.callback
  unfolding first_match
  first_match-append_new path [] r h m = rw m refl
  first_match-append_new path (s ∷ rs) r h m = elim (Bool-cases (matches s.uri path)) [
    | inl e ↦ cc
    | inr ne ↦ rw ne (first_match-append_new path rs r (rw ne at h) m)
  ]

  invoke-found :
      (cs : Callbacks) (json : Node) (url method body : Text) (rs : List Resource) (p : Callback)
      → resources (map to_upper method) cs ≡ some rs
      → first_match matches (url_parts url).0 rs ≡ some p
      → invoke matches cs json url method body ≡ call p json (url_parts url).1 body
  unfolding invoke
  invoke-found cs json url method body rs p found matched = rw (invoke, found) (rw matched refl)

  added :
      (cs : Callbacks) (uri method : Text) (p q : Callback) (json : Node) (url method' body : Text)
      → map to_upper method' ≡ map to_upper method
      → first_match matches
          (url_parts url).0
          (list_of (map to_upper method) cs ++ (record { uri = uri; callback = p }) ∷ [])
        ≡ some q
      → invoke matches (add_call_back uri method p cs) json url method' body
        ≡ call q json (url_parts url).1 body
  unfolding add_call_back
  added cs uri method p q json url method' body same h =
      let r : Resource = record { uri = uri; callback = p } in
      invoke-found (append_resource (map to_upper method) r cs) json url method' body
        (list_of (map to_upper method) cs ++ r ∷ []) q
        (ap (λ m. resources m (append_resource (map to_upper method) r cs)) same
          ∙ resources-append (map to_upper method) r cs)
        h

  -- A request that reaches a callback reaches the same one after another callback is added for
  -- its method, whose letters may differ in case.
  pub invoke-add_call_back_found :
      (cs : Callbacks) (uri method : Text) (p q : Callback) (json : Node) (url method' body : Text)
      → map to_upper method' ≡ map to_upper method
      → first_match matches (url_parts url).0 (list_of (map to_upper method) cs) ≡ some q
      → invoke matches (add_call_back uri method p cs) json url method' body
        ≡ call q json (url_parts url).1 body
  invoke-add_call_back_found cs uri method p q json url method' body same h =
      added cs uri method p q json url method' body same (
        first_match-append_found (url_parts url).0 (list_of (map to_upper method) cs)
          (record { uri = uri; callback = p }) q h)

  -- A request that reaches no callback of its method reaches one that is added for the method,
  -- whose letters may differ in case, if the path of its URL matches the pattern of that.
  pub invoke-add_call_back_new :
      (cs : Callbacks) (uri method : Text) (p : Callback) (json : Node) (url method' body : Text)
      → map to_upper method' ≡ map to_upper method
      → first_match matches (url_parts url).0 (list_of (map to_upper method) cs) ≡ none
      → matches uri (url_parts url).0 ≡ true
      → invoke matches (add_call_back uri method p cs) json url method' body
        ≡ call p json (url_parts url).1 body
  invoke-add_call_back_new cs uri method p json url method' body same h m =
      added cs uri method p p json url method' body same (
        first_match-append_new (url_parts url).0 (list_of (map to_upper method) cs)
          (record { uri = uri; callback = p }) h m)
