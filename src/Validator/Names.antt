-- ===== src/Validator/Names.antt =====
-- PoC-webui-v2/internal/validator/validator.go, `names`: names are unique in their name space (DM-01).
-- The two-level map `byNS` is one list of (name space, name, object).
pub mod Unique
use songbird_prototypes.Prelude.{
  String, Option, none, some, List, [], ◌∷◌, ◌==◌, if◌then◌else◌, lookup, concat, quoted,
}
use songbird_prototypes.Model.Tree.{Tree, Kind, Doc, header, kind_by_name}
use songbird_prototypes.Model.Edits.{each}
use songbird_prototypes.Validator.Checks.{NameSpace, Check, return, ◌>>◌, at, err, fold}

abbrev pub Registry : Type 0
Registry = List (String × String × Doc)

-- `byNS[ns]`, empty where it is nil.
unfoldable pub in_space : String → Registry → NameSpace
in_space ns [] = []
in_space ns ((ns', name, o) ∷ m) =
    let rest = in_space ns m in if ns' == ns then (name, o) ∷ rest else rest

namespace_in : Option Kind → String
namespace_in none = ""
namespace_in (some k) = k.namespace

-- The name space of an object's kind.
unfoldable pub space_of : Doc → String
unfolding namespace_in
space_of o = namespace_in (kind_by_name (header o).0)

abbrev pub doc_name : Doc → String
doc_name o = (header o).1.name

unfoldable pub claim : Option Doc → Doc → Registry → Check Registry
claim none o m = return ((space_of o, doc_name o, o) ∷ m)
claim (some other) o m =
    err "unique-name" "DM-01" "metadata.name" (
      concat (
        "name "
        ∷ quoted (doc_name o)
        ∷ " is already used by "
        ∷ (header other).0
        ∷ "/"
        ∷ doc_name o
        ∷ " (shared "
        ∷ space_of o
        ∷ " namespace)"
        ∷ []))
    >> return m

unfoldable pub register : Doc → Registry → Check Registry
register o m = at o >> claim (lookup (doc_name o) (in_space (space_of o) m)) o m

unfoldable pub names : Tree → Check Registry
names t = fold (each t) register []
