-- ===== src/Web/Query.antt =====
-- `HTTPParser` of webserver/HTTPParser.cpp: the resource and the parameters of a GET request.
use dumais_lib.Prelude.{
  ℕ, Bool, true, false, none, some, [], ◌∷◌, ◌++◌, Text, codes, length, take, drop, ltb, ◌==◌,
  if◌then◌else◌,
}
use dumais_lib.Json.Number.{text_eq}
use dumais_lib.Rest.Parameters.{Values, get_param, store}
use dumais_lib.Rest.Engine.{split_at}

-- `mRequest` and `mParamList`.
pub record Query : Type 0 where
  pub request : Text
  pub param_list : Values

-- The variables of the loop.
pub record QueryScan : Type 0 where
  pub key_flag : Bool
  pub key : Text
  pub value : Text
  pub found : Values

abbrev pub starts_with_space : Text → Bool
starts_with_space [] = false
starts_with_space (c ∷ s) = c == b' '

-- The tests on one character, which is no space.
unfoldable pub scan_query_char : ℕ → QueryScan → QueryScan
unfolding store
scan_query_char c st =
    if c == b'='
    then record st { key_flag = false }
    else if c == b'&'
    then record { key_flag = true; key = []; value = []; found = store st.key st.value st.found }
    else if st.key_flag
    then record st { key = st.key ++ c ∷ [] }
    else record st { value = st.value ++ c ∷ [] }

-- The test behind `n++`.
unfoldable pub end_query : Text → QueryScan → QueryScan
unfolding store
end_query s st =
    if starts_with_space s
    then record st { key = []; value = []; found = store st.key st.value st.found }
    else st

unfoldable pub scan_query : QueryScan → Text → Values
unfolding scan_query_char end_query
scan_query st [] = st.found
scan_query st (c ∷ s) =
    let rest = scan_query (end_query s (scan_query_char c st)) s in
    if c == b' ' then st.found else rest

abbrev pub no_query : Query
no_query = record { request = []; param_list = [] }

-- The text behind `GET `.
unfoldable pub query_of : Text → Query
unfolding split_at scan_query
query_of st = elim (split_at b' ' st) [
  | none ↦ no_query
  | some (path, behind) ↦ elim (split_at b'?' st) [
    | none ↦ record { request = path; param_list = [] }
    | some (resource, params) ↦ record {
      request = resource;
      param_list = scan_query (record { key_flag = true; key = []; value = []; found = [] }) params;
    }
  ]
]

-- The constructor.
unfoldable pub http_parser : Text → Query
unfolding query_of text_eq
http_parser url =
    if ltb (length url) 5
    then no_query
    else if text_eq (take 4 url) (codes "GET ")
    then query_of (drop 4 url)
    else no_query

-- `getParam`.
unfoldable pub query_param : Text → Query → Text
unfolding get_param
query_param name q = get_param name q.param_list
