-- ===== src/Model/Edits.antt =====
-- PoC-webui-v2/internal/model/tree.go: the operations of `Tree` that go through a kind's list.
-- An operation on an unknown kind fails, or does nothing, as in the source.
pub mod Laws
pub mod Views
use songbird_prototypes.Prelude.{String, Bool, false, Option, none, some, List, [], ◌∷◌, ◌++◌, map}
use songbird_prototypes.Model.Types.{Object}
use songbird_prototypes.Model.System.{SystemSpec, empty_system}
use songbird_prototypes.Model.Objects
use songbird_prototypes.Model.Tree.{
  KindName, Tree, Doc, SpecOf, list_kind, objects, with_objects, header, as_object, to_doc,
  kind_names,
}

names_in : Option KindName → Tree → List String
names_in none t = []
names_in (some k) t = Objects.names (objects k t)

-- The names of the objects of one kind.
unfoldable pub names : Tree → String → List String
unfolding names_in
names t kind = names_in (list_kind kind) t

put_object : (k : KindName) → Tree → Option (Object (SpecOf k)) → Option Tree
put_object k t none = none
put_object k t (some o) = some (with_objects k (Objects.put o (objects k t)) t)

put_in : Option KindName → Tree → Doc → Option Tree
unfolding put_object
put_in none t d = none
put_in (some k) t d = put_object k t (as_object k d)

-- `Put` stores a typed object; `none` is the error.
unfoldable pub put : Tree → Doc → Option Tree
unfolding put_in
put t d = put_in (list_kind (header d).0) t d

delete_in : Option KindName → Tree → String → Tree × Bool
delete_in none t name = (t, false)
delete_in (some k) t name =
    let (l, found) = Objects.remove name (objects k t) in (with_objects k l t, found)

unfoldable pub delete : Tree → String → String → Tree × Bool
unfolding delete_in
delete t kind name = delete_in (list_kind kind) t name

unfoldable pub get_in : Option KindName → Tree → String → Option Doc
get_in none t name = none
get_in (some k) t name = elim (Objects.find name (objects k t)) [
  | none ↦ none
  | some o ↦ some (to_doc k o)
]

unfoldable pub get : Tree → String → String → Option Doc
unfolding get_in
get t kind name = get_in (list_kind kind) t name

docs_of : List KindName → Tree → List Doc
docs_of [] t = []
docs_of (k ∷ ks) t = map (to_doc k) (objects k t) ++ docs_of ks t

-- The objects in the order in which `Each` visits them.
unfoldable pub each : Tree → List Doc
unfolding docs_of
each t = docs_of kind_names t

sort_kinds : List KindName → Tree → Tree
sort_kinds [] t = t
sort_kinds (k ∷ ks) t = sort_kinds ks (with_objects k (Objects.sort_by_name (objects k t)) t)

unfoldable pub sort : Tree → Tree
unfolding sort_kinds
sort t = sort_kinds kind_names t

unfoldable pub system_of : List (Object SystemSpec) → SystemSpec
system_of [] = empty_system
system_of (o ∷ _) = o.spec

-- The System singleton, or the zero spec where it is missing.
unfoldable pub sys : Tree → SystemSpec
unfolding system_of
sys t = system_of t.system
