-- ===== src/Rest/Engine.antt =====
-- `RESTEngine` and `RESTCallBack` of rest/RESTEngine.cpp and rest/RESTCallBack.cpp.
use dumais_lib.Prelude.{
  true, ltb, ℕ, ◌-◌, Bool, false, ◌&&◌, ◌||◌, Option, none, some, List, [], ◌∷◌, ◌++◌, Text, codes,
  map, leb, ◌==◌, if◌then◌else◌,
}
use dumais_lib.Json.Number.{text_eq}
use dumais_lib.Json.Node.{Node}
use dumais_lib.Json.Edit.{text, add_value}
use dumais_lib.Rest.Parameters.{Values, get_param, parameters}

-- `RESTEngine::ResponseCode`.
pub data ResponseCode : Type 0 where
  ok created accepted bad_request forbidden not_found method_not_allowed not_implemented
        service_unavailable :
      ResponseCode

-- `RESTParameter`.
pub record Parameter : Type 0 where
  pub name : Text
  pub description : Text
  pub location : Text
  pub default_value : Text
  pub type_name : Text
  pub required : Bool

-- `RESTCallBack`, with the number that stands for its pointer: `run` is the user's function, from the
-- parameters and the data to what it makes of the JSON tree and the code.
pub record Callback : Type 0 where
  pub pointer : ℕ
  pub description : Text
  pub params : List Parameter
  pub run : Values → Text → Node → ResponseCode × Node

unfoldable pub is_registered : List Parameter → Text → Bool
unfolding text_eq
is_registered [] k = false
is_registered (p ∷ ps) k = text_eq p.name k || is_registered ps k

-- `addParam`: a name that the map has keeps its parameter.
unfoldable pub add_param : Parameter → Callback → Callback
unfolding is_registered
add_param x p =
    if is_registered p.params x.name then p else record p { params = p.params ++ x ∷ [] }

-- A parameter that a query must give and does not.
unfoldable pub is_missing : Values → Parameter → Bool
unfolding get_param
is_missing values p =
    p.required && (text_eq p.location (codes "query") && text_eq (get_param p.name values) [])

unfoldable pub first_missing : Values → List Parameter → Option Parameter
unfolding is_missing
first_missing values [] = none
first_missing values (p ∷ ps) =
    let rest = first_missing values ps in if is_missing values p then some p else rest

-- `RESTCallBack::call`.
unfoldable pub call : Callback → Node → (param_string data_string : Text) → ResponseCode × Node
unfolding is_registered first_missing parameters
call p json param_string data_string =
    let values = parameters (is_registered p.params) param_string in
    elim (first_missing values p.params) [
      | none ↦ p.run values data_string json
      | some missing ↦ (
        bad_request,
        (add_value (text (codes "Missing required parameter " ++ missing.name)) (codes "error")
            json).0,
      )
    ]

-- `ResourceIdentifier`, whose regular expression is made of its `uri`.
pub record Resource : Type 0 where
  pub uri : Text
  pub callback : Callback

-- `CallbackMap`.
abbrev pub Callbacks : Type 0
Callbacks = List (Text × List Resource)

unfoldable pub to_upper : ℕ → ℕ
to_upper c = if leb b'a' c && leb c b'z' then c - 32 else c

-- `mCallbacks.find`.
unfoldable pub resources : Text → Callbacks → Option (List Resource)
unfolding text_eq
resources method [] = none
resources method ((m, rs) ∷ cs) = if text_eq m method then some rs else resources method cs

-- The order of `std::map`, which is that of the names' characters.
unfoldable pub text_lt : Text → Text → Bool
text_lt s [] = false
text_lt [] (d ∷ t) = true
text_lt (c ∷ s) (d ∷ t) = ltb c d || (c == d && text_lt s t)

-- A method that is new comes to its place in the map.
unfoldable pub insert_method : Text → List Resource → Callbacks → Callbacks
unfolding text_lt
insert_method method new [] = (method, new) ∷ []
insert_method method new ((m, rs) ∷ cs) =
    let rest = insert_method method new cs in
    if text_lt method m then (method, new) ∷ (m, rs) ∷ cs else (m, rs) ∷ rest

-- A method that is there gets another resource.
unfoldable pub push_resource : Text → Resource → Callbacks → Callbacks
unfolding text_eq
push_resource method r [] = []
push_resource method r ((m, rs) ∷ cs) =
    if text_eq m method then (m, rs ++ r ∷ []) ∷ cs else (m, rs) ∷ push_resource method r cs

-- `mCallbacks[method].push_back(ri)`.
unfoldable pub append_resource : Text → Resource → Callbacks → Callbacks
unfolding resources insert_method push_resource
append_resource method r cs = elim (resources method cs) [
  | none ↦ insert_method method (r ∷ []) cs
  | some rs ↦ push_resource method r cs
]

-- `addCallBack`.
unfoldable pub add_call_back : (uri method : Text) → Callback → Callbacks → Callbacks
unfolding append_resource to_upper
add_call_back uri method p =
    append_resource (map to_upper method) (record { uri = uri; callback = p })

-- The loop of `removeCallBack` over the resources of a method: the first one of the callback is erased.
unfoldable pub erase_resource : (pointer : ℕ) → List Resource → List Resource
erase_resource k [] = []
erase_resource k (r ∷ rs) = if r.callback.pointer == k then rs else r ∷ erase_resource k rs

-- `removeCallBack`.
unfoldable pub remove_call_back : (pointer : ℕ) → Callbacks → Callbacks
unfolding erase_resource
remove_call_back k [] = []
remove_call_back k ((m, rs) ∷ cs) = (m, erase_resource k rs) ∷ remove_call_back k cs

-- The text before the first `c`, and what follows it.
unfoldable pub split_at : ℕ → Text → Option (Text × Text)
split_at c [] = none
split_at c (d ∷ s) =
    let rest = split_at c s in
    if d == c then some ([], s) else elim rest [ none ↦ none | some (a, b) ↦ some (d ∷ a, b) ]

-- `urlPart1` and `urlPart2`.
unfoldable pub url_parts : Text → Text × Text
unfolding split_at
url_parts url = elim (split_at b'?' url) [
  | some parts ↦ parts
  | none ↦ elim (split_at b' ' url) [ some (a, b) ↦ (a, []) | none ↦ (url, []) ]
]

-- `matches` is `std::regex_match`, of a pattern and a text.
module _ (matches : Text → Text → Bool) where
  unfoldable pub first_match : Text → List Resource → Option Callback
  first_match path [] = none
  first_match path (r ∷ rs) =
      let rest = first_match path rs in if matches r.uri path then some r.callback else rest

  -- `invoke`.
  unfoldable pub invoke : Callbacks → Node → (url method data_string : Text) → ResponseCode × Node
  unfolding to_upper resources url_parts first_match call
  invoke cs json url method data_string = elim (resources (map to_upper method) cs) [
    | none ↦ (method_not_allowed, json)
    | some rs ↦ elim (first_match (url_parts url).0 rs) [
      | some p ↦ call p json (url_parts url).1 data_string
      | none ↦ (not_found, json)
    ]
  ]
