-- ===== src/Rest/Required.antt =====
-- The required parameters of a callback of rest/RESTCallBack.cpp.
use dumais_lib.Prelude.{
  ◌≡◌, refl, ap, ◌∙◌, true, some, List, [], ◌∷◌, ◌++◌, Text, Bool-cases, inl, inr,
}
use dumais_lib.Json.Node.{Node}
use dumais_lib.Rest.Parameters.{Values, parameters}
use dumais_lib.Rest.Engine.{
  bad_request, Parameter, Callback, is_registered, is_missing, first_missing, call,
}

-- What the constructor of `RESTParameters` makes of a query for a callback.
abbrev pub values_of : Callback → Text → Values
values_of p param_string = parameters (is_registered p.params) param_string

first_missing-some :
    (values : Values) (before after : List Parameter) (q : Parameter)
    → is_missing values q ≡ true
    → (x : Parameter) × (first_missing values (before ++ q ∷ after) ≡ some x)
unfolding first_missing
first_missing-some values [] after q h = (q, rw h refl)
first_missing-some values (b ∷ before) after q h = elim (Bool-cases (is_missing values b)) [
  | inl e ↦ (b, rw e refl)
  | inr ne ↦ let (x, found) = first_missing-some values before after q h in (x, rw ne found)
]

call-bad_request :
    (p : Callback) (json : Node) (param_string data_string : Text) (x : Parameter)
    → first_missing (values_of p param_string) p.params ≡ some x
    → (call p json param_string data_string).0 ≡ bad_request
unfolding call
call-bad_request p json param_string data_string x h = rw (call, h) refl

-- A call whose query does not give one of the callback's required query parameters, wherever
-- that stands in the list, is answered with `BadRequest`.
pub call-missing :
    (p : Callback) (json : Node) (param_string data_string : Text) (before after : List Parameter)
    (q : Parameter)
    → p.params ≡ before ++ q ∷ after
    → is_missing (values_of p param_string) q ≡ true
    → (call p json param_string data_string).0 ≡ bad_request
call-missing p json param_string data_string before after q e h =
    let (x, found) = first_missing-some (values_of p param_string) before after q h in
    call-bad_request p json param_string data_string x
      (ap (first_missing (values_of p param_string)) e ∙ found)
