-- ===== src/Rest/Tests.antt =====
-- Runs of the REST engine of rest/.
use dumais_lib.Prelude.{Bool, true, [], ◌∷◌, ◌≡◌, refl, Text, codes}
use dumais_lib.Json.Number.{text_eq}
use dumais_lib.Json.Node.{Node, object, no_members}
use dumais_lib.Prelude.{some, none, false}
use dumais_lib.Json.Print.{stringify}
use dumais_lib.Json.Escape.{unescape_string}
use dumais_lib.Json.Node.{get_by_key}
use dumais_lib.Rest.Engine.{remove_call_back, add_param}
use dumais_lib.Rest.Removing.{AreOthers, IsAbsent, remove_call_back-add_call_back}
use dumais_lib.Rest.Describe.{empty_object, swagger_entry, swagger_paths, document_interface}
use dumais_lib.Rest.Swagger.{last_entry, entries, HaveUris, AllHaveUris, swagger_paths-last}
use dumais_lib.Rest.Parameters.{Values, lookup, get_param, parameters}
use dumais_lib.Rest.Stored.{last_value}
use dumais_lib.Rest.Query.{ArePlainPairs, render, parameters-render}
use dumais_lib.Rest.Engine.{Parameter}
use dumais_lib.Rest.Engine.{
  ok, Callback, Callbacks, to_upper, resources, url_parts, add_call_back, first_match, invoke, call,
}
use dumais_lib.Rest.Dispatch.{list_of, invoke-add_call_back_found, invoke-add_call_back_new}

abbrev pairs : Values
pairs = (codes "a", codes "1") ∷ (codes "b", []) ∷ (codes "a", codes "23") ∷ []

abbrev is_a : Text → Bool
is_a k = text_eq k (codes "a")

pairs-ArePlainPairs : ArePlainPairs pairs
unfolding ArePlainPairs
pairs-ArePlainPairs =
    ((refl, tt), (refl, tt), ((refl, tt), tt, ((refl, tt), (refl, (refl, tt)), tt)))

parameters-render_example :
    (lookup (codes "a") (parameters is_a (render pairs)) ≡ some (codes "23"))
    × (lookup (codes "b") (parameters is_a (render pairs)) ≡ none)
unfolding last_value text_eq
parameters-render_example = (
  parameters-render is_a pairs (codes "a") pairs-ArePlainPairs,
  parameters-render is_a pairs (codes "b") pairs-ArePlainPairs,
)

-- The last value of a name counts.
last_test : get_param (codes "a") (parameters is_a (codes "a=1&b=&a=23 HTTP/1.1")) ≡ codes "23"
unfolding get_param parameters text_eq
last_test = refl

abbrev greet : Callback
greet = record {
  pointer = 1;
  description = codes "greets";
  params = [];
  run = λ values body json. (ok, json);
}

abbrev nothing : Node
nothing = object no_members

abbrev one : Callbacks
one = (codes "GET", (record { uri = codes "/a"; callback = greet }) ∷ []) ∷ []

invoke-add_call_back_new_example :
    invoke text_eq
      (add_call_back (codes "/b") (codes "get") greet one)
      nothing
      (codes "/b?x=1")
      (codes "Get")
      []
    ≡ call greet nothing (codes "x=1") []
unfolding list_of resources first_match url_parts text_eq to_upper
invoke-add_call_back_new_example =
    invoke-add_call_back_new text_eq one (codes "/b") (codes "get") greet nothing (codes "/b?x=1")
      (codes "Get") [] refl refl refl

invoke-add_call_back_found_example :
    invoke text_eq
      (add_call_back (codes "/a") (codes "get") greet one)
      nothing
      (codes "/a HTTP/1.1")
      (codes "GET")
      []
    ≡ call greet nothing [] []
unfolding list_of resources first_match url_parts text_eq to_upper
invoke-add_call_back_found_example =
    invoke-add_call_back_found text_eq one (codes "/a") (codes "get") greet greet nothing
      (codes "/a HTTP/1.1") (codes "GET") [] refl refl

abbrev id : Parameter
id = record {
  name = codes "id";
  description = codes "a number";
  location = codes "query";
  default_value = [];
  type_name = codes "string";
  required = true;
}

abbrev strict : Callback
strict = record greet { params = id ∷ [] }

remove_call_back-add_call_back_example :
    list_of (codes "GET") (
      remove_call_back 2
        (add_call_back (codes "/b") (codes "get") (record greet { pointer = 2 }) one))
    ≡ list_of (codes "GET") one
unfolding IsAbsent AreOthers
remove_call_back-add_call_back_example =
    remove_call_back-add_call_back (codes "GET") (codes "/b") (codes "get")
      (record greet { pointer = 2 }) one ((refl, tt), tt)

-- A URI with two methods.
abbrev two_methods : Callbacks
two_methods =
    (codes "GET", (record { uri = codes "/a"; callback = greet }) ∷ [])
    ∷ (codes "PUT", (record { uri = codes "/a"; callback = strict }) ∷ [])
    ∷ []

swagger_paths-last_example :
    get_by_key (codes "/a") (swagger_paths two_methods empty_object)
    ≡ some (swagger_entry (codes "put") (record { uri = codes "/a"; callback = strict }))
unfolding last_entry entries HaveUris AllHaveUris
swagger_paths-last_example = swagger_paths-last (codes "/a") two_methods ((cc, tt), ((cc, tt), tt))

add_param_test : (add_param (record id { required = false }) strict).params ≡ id ∷ []
unfolding add_param
add_param_test = refl

document_interface_test :
    stringify (document_interface one nothing) none
    ≡ codes
        "{\"api\" : [{\"description\" : \"greets\",\"params\" : [],\"path\" : \"/a\",\"method\" : \"GET\"}]}"
unfolding document_interface stringify unescape_string
document_interface_test = refl
