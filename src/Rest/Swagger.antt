-- ===== src/Rest/Swagger.antt =====
-- The paths of `documentSwaggerInterface` of rest/RESTEngine.cpp.
use dumais_lib.Prelude.{
  ◌≡◌, ◌≢◌, refl, ap, sym, ◌∙◌, Option, none, some, List, [], ◌∷◌, ◌++◌, Text, map, if◌then◌else◌,
}
use dumais_lib.Json.Number.{text_eq}
use dumais_lib.Json.Node.{Node, object, Members, no_members, find, insert, get_by_key}
use dumais_lib.Json.Edit.{key_for}
use dumais_lib.Json.Adding.{find-insert_any}
use dumais_lib.Rest.Engine.{Resource, Callbacks}
use dumais_lib.Rest.Describe.{
  with_node, to_lower, swagger_entry, swagger_resources, swagger_paths, empty_object,
}

-- Entries under their URIs.
abbrev pub Entries : Type 0
Entries = List (Text × Node)

-- The last entry of a URI.
unfoldable pub last_entry : Text → Entries → Option Node → Option Node
unfolding text_eq
last_entry k [] o = o
last_entry k ((uri, v) ∷ es) o = last_entry k es (if text_eq uri k then some v else o)

unfoldable pub entries_of : (method : Text) → List Resource → Entries
entries_of method [] = []
entries_of method (r ∷ rs) = (r.uri, swagger_entry method r) ∷ entries_of method rs

-- The entries of all resources, the methods in small letters.
unfoldable pub entries : Callbacks → Entries
unfolding entries_of to_lower
entries [] = []
entries ((m, rs) ∷ cs) = entries_of (map to_lower m) rs ++ entries cs

unfoldable pub HaveUris : List Resource → Type 0
HaveUris [] = Unit {0}
HaveUris (r ∷ rs) = (r.uri ≢ []) × HaveUris rs

unfoldable pub AllHaveUris : Callbacks → Type 0
unfolding HaveUris
AllHaveUris [] = Unit {0}
AllHaveUris ((m, rs) ∷ cs) = HaveUris rs × AllHaveUris cs

last_entry-append :
    (k : Text) (es fs : Entries) (o : Option Node)
    → last_entry k (es ++ fs) o ≡ last_entry k fs (last_entry k es o)
unfolding last_entry
last_entry-append k [] fs o = refl
last_entry-append k ((uri, v) ∷ es) fs o =
    last_entry-append k es fs (if text_eq uri k then some v else o)

with_node-named :
    (v : Node) (name : Text) (ms : Members)
    → name ≢ []
    → with_node v name (object ms) ≡ object (insert name v ms)
unfolding with_node key_for
with_node-named v [] ms h = absurd (h refl)
with_node-named v (c ∷ name) ms h = refl

-- The members of an object.
abbrev IsRead : Text → Entries → Members → Node → Type 0
IsRead k es ms json =
    (ns : Members) × (json ≡ object ns) × (find k ns ≡ last_entry k es (find k ms))

swagger_resources-IsRead :
    (k method : Text) (rs : List Resource) (ms : Members)
    → HaveUris rs
    → IsRead k (entries_of method rs) ms (swagger_resources method rs (object ms))
unfolding swagger_resources entries_of HaveUris last_entry
swagger_resources-IsRead k method [] ms h = (ms, refl, refl)
swagger_resources-IsRead k method (r ∷ rs) ms (named, h) =
    let v = swagger_entry method r in
    let (ns, e, found) = swagger_resources-IsRead k method rs (insert r.uri v ms) h in
    (
      ns,
      ap (swagger_resources method rs) (with_node-named v r.uri ms named) ∙ e,
      found ∙ ap (last_entry k (entries_of method rs)) (find-insert_any r.uri v ms k),
    )

swagger_paths-IsRead :
    (k : Text) (cs : Callbacks) (ms : Members)
    → AllHaveUris cs
    → IsRead k (entries cs) ms (swagger_paths cs (object ms))
unfolding swagger_paths entries AllHaveUris last_entry
swagger_paths-IsRead k [] ms h = (ms, refl, refl)
swagger_paths-IsRead k ((m, rs) ∷ cs) ms (h, later) =
    let (ns, e, found) = swagger_resources-IsRead k (map to_lower m) rs ms h in
    let (ks, e', found') = swagger_paths-IsRead k cs ns later in
    (
      ks,
      ap (swagger_paths cs) e ∙ e',
      found'
          ∙ ap (last_entry k (entries cs)) found
          ∙ sym (last_entry-append k (entries_of (map to_lower m) rs) (entries cs) (find k ms)),
    )

-- The paths of the Swagger description have under a URI the entry of the last resource with that
-- URI, in the order of the methods and of their resources, and nothing under a text that is no
-- URI: what other methods of the URI have is lost. No URI is empty.
pub swagger_paths-last :
    (k : Text) (cs : Callbacks)
    → AllHaveUris cs
    → get_by_key k (swagger_paths cs empty_object) ≡ last_entry k (entries cs) none
unfolding get_by_key
swagger_paths-last k cs h =
    let (ns, e, found) = swagger_paths-IsRead k cs no_members h in
    ap (get_by_key k) e ∙ found ∙ (unfold find in refl)
