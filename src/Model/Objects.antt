-- ===== src/Model/Objects.antt =====
-- PoC-webui-v2/internal/model/tree.go: the generic `List[S]`, a list of objects keyed by name.
pub mod Laws
pub mod Sorting
use songbird_prototypes.Prelude.{
  String, Bool, true, false, Option, none, some, List, [], ◌∷◌, map, ◌==◌, if◌then◌else◌, text_lt,
}
use songbird_prototypes.Model.Types.{Object}

module _ {ℓ} {S : Type ℓ} where
  abbrev pub name_of : Object S → String
  name_of o = o.metadata.name

  -- Replaces the first object of that name, or appends.
  unfoldable pub put : Object S → List (Object S) → List (Object S)
  put o [] = o ∷ []
  put o (x ∷ l) = if name_of x == name_of o then o ∷ l else x ∷ put o l

  -- Removes the first object of that name, and reports whether there was one.
  unfoldable pub remove : String → List (Object S) → List (Object S) × Bool
  remove n [] = ([], false)
  remove n (x ∷ l) =
      let (rest, found) = remove n l in if name_of x == n then (l, true) else (x ∷ rest, found)

  unfoldable pub find : String → List (Object S) → Option (Object S)
  find n [] = none
  find n (x ∷ l) = if name_of x == n then some x else find n l

  unfoldable pub names : List (Object S) → List String
  names l = map name_of l

  insert_by_name : Object S → List (Object S) → List (Object S)
  insert_by_name o [] = o ∷ []
  insert_by_name o (x ∷ l) =
      if text_lt (name_of x) (name_of o) then x ∷ insert_by_name o l else o ∷ x ∷ l

  -- `sort.SliceStable` by name: a stable sort has one result, here by stable insertion.
  unfoldable pub sort_by_name : List (Object S) → List (Object S)
  unfolding insert_by_name
  sort_by_name [] = []
  sort_by_name (x ∷ l) = insert_by_name x (sort_by_name l)
