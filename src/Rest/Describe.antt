-- ===== src/Rest/Describe.antt =====
-- What rest/RESTCallBack.cpp, rest/RESTCallBack.h and rest/RESTEngine.cpp make of the callbacks as a
-- description in JSON. An object or a list that a call adds and that further calls fill is added with
-- all that they put into it.
use dumais_lib.Prelude.{ℕ, ◌+◌, ◌&&◌, List, [], ◌∷◌, Text, codes, map, leb, if◌then◌else◌}
use dumais_lib.Json.Number.{text_eq}
use dumais_lib.Json.Node.{Node, list, object, no_items, no_members}
use dumais_lib.Json.Edit.{Scalar, text, real, truth, add_node, add_value}
use dumais_lib.Rest.Engine.{Parameter, Callback, Resource, Callbacks, to_upper}

-- The tree that an adding operation leaves.
unfoldable pub with_node : Node → (name : Text) → Node → Node
unfolding add_node
with_node v name json = (add_node v name json).0

unfoldable pub with_value : Scalar → (name : Text) → Node → Node
unfolding add_value
with_value s name json = (add_value s name json).0

abbrev pub empty_object : Node
empty_object = object no_members

abbrev pub empty_list : Node
empty_list = list no_items

-- The loop of `getDescription`, on the list that it fills.
unfoldable pub describe_params : List Parameter → Node → Node
unfolding with_node with_value
describe_params [] params = params
describe_params (x ∷ xs) params = describe_params xs (
    with_node
      (with_value (text x.description) (codes "description")
        (with_value (text x.name) (codes "name") empty_object))
      (codes "param") params)

-- `getDescription`.
unfoldable pub get_description : Callback → Node → Node
unfolding describe_params with_node with_value
get_description p json =
    with_node (describe_params p.params empty_list) (codes "params")
      (with_value (text p.description) (codes "description") json)

-- A parameter in `getSwaggerDescription`.
unfoldable pub swagger_param : Parameter → Node
unfolding with_value text_eq
swagger_param x =
    let j = with_value (truth x.required) (codes "required") (
      with_value (text x.location) (codes "in") (
        with_value (text x.type_name) (codes "type") (
          with_value (text x.description) (codes "description")
            (with_value (text x.name) (codes "name") empty_object)))) in
    if text_eq x.default_value [] then j else with_value (text x.default_value) (codes "default") j

unfoldable pub swagger_params : List Parameter → Node → Node
unfolding swagger_param with_node
swagger_params [] params = params
swagger_params (x ∷ xs) params =
    swagger_params xs (with_node (swagger_param x) (codes "param") params)

-- `getSwaggerDescription`.
unfoldable pub get_swagger_description : Callback → Node → Node
unfolding swagger_params with_node with_value
get_swagger_description p json =
    let j =
      with_value (text p.description) (codes "description")
        (with_value (text p.description) (codes "summary") json) in
    elim (p.params) [
      | [] ↦ j
      | x ∷ xs ↦ with_node (swagger_params p.params empty_list) (codes "parameters") j
    ]

-- The entry of a resource in `documentInterface`.
unfoldable pub api_entry : (method : Text) → Resource → Node
unfolding get_description with_value
api_entry method r =
    with_value (text method) (codes "method")
      (with_value (text r.uri) (codes "path") (get_description r.callback empty_object))

unfoldable pub api_resources : (method : Text) → List Resource → Node → Node
unfolding api_entry with_node
api_resources method [] api = api
api_resources method (r ∷ rs) api = api_resources method rs (with_node (api_entry method r) [] api)

unfoldable pub api_callbacks : Callbacks → Node → Node
unfolding api_resources to_upper
api_callbacks [] api = api
api_callbacks ((m, rs) ∷ cs) api = api_callbacks cs (api_resources (map to_upper m) rs api)

-- `documentInterface`, of an object: `json["api"]` is the list that has been added.
unfoldable pub document_interface : Callbacks → Node → Node
unfolding api_callbacks with_node
document_interface cs json = with_node (api_callbacks cs empty_list) (codes "api") json

-- `::tolower`.
unfoldable pub to_lower : ℕ → ℕ
to_lower c = if leb b'A' c && leb c b'Z' then c + 32 else c

-- The entry of a resource in `documentSwaggerInterface`.
unfoldable pub swagger_entry : (method : Text) → Resource → Node
unfolding get_swagger_description with_node
swagger_entry method r =
    with_node (get_swagger_description r.callback empty_object) method empty_object

unfoldable pub swagger_resources : (method : Text) → List Resource → Node → Node
unfolding swagger_entry with_node
swagger_resources method [] paths = paths
swagger_resources method (r ∷ rs) paths =
    swagger_resources method rs (with_node (swagger_entry method r) r.uri paths)

unfoldable pub swagger_paths : Callbacks → Node → Node
unfolding swagger_resources to_lower
swagger_paths [] paths = paths
swagger_paths ((m, rs) ∷ cs) paths = swagger_paths cs (swagger_resources (map to_lower m) rs paths)

-- `documentSwaggerInterface`, of an object; the stream prints 2.0 as `2`.
unfoldable pub document_swagger_interface :
    Callbacks → Node → (version title description schemes host base_path : Text) → Node
unfolding swagger_paths with_node with_value
document_swagger_interface cs json version title description schemes host base_path =
    let info = with_value (text description) (codes "descrition") (
      with_value (text title) (codes "title")
        (with_value (text version) (codes "version") empty_object)) in
    with_node (swagger_paths cs empty_object) (codes "paths") (
      with_value (text base_path) (codes "basePath") (
        with_value (text host) (codes "host") (
          with_value (text schemes) (codes "schemes") (
            with_node info (codes "info") (with_value (real (codes "2")) (codes "swagger") json)))))
