-- ===== src/Api/Import.antt =====
-- config.go, `importConfig`: the closure that replaces the whole configuration.
pub mod Sound
use songbird_prototypes.Prelude.{
  ℕ, String, ◌⊎◌, inl, inr, not, none, some, List, [], ◌∷◌, ◌++◌, ◌==◌, if◌then◌else◌, length, all,
  is_empty, concat, decimal,
}
use songbird_prototypes.Model.Tree.{Tree, Doc, header}
use songbird_prototypes.Model.Edits.{get, each}
use songbird_prototypes.Model.Uuids.{assign_uuids}
use songbird_prototypes.Netip.{Texts}
use songbird_prototypes.Predefined.{Shipped}
use songbird_prototypes.Validator.Errors.{Error, errors}
use songbird_prototypes.Validator.Run.{Issue, validate}
use songbird_prototypes.Validator.Load.{Sources, relocate}
use songbird_prototypes.Configstore.{Change}
use songbird_prototypes.Api.{ApiError, is_full}

-- The Users of HEAD are kept when the import has none.
unfoldable pub imported : Tree → Tree → Tree
imported head new = if is_empty new.users then record new { users = head.users } else new

-- The deletions: the objects of HEAD that the import does not have.
unfoldable pub gone : Tree → List Doc → List Change
gone new [] = []
gone new (o ∷ os) =
    let rest = gone new os in
    let (kind, meta) = header o in
    if is_full (get new kind meta.name)
    then rest
    else record { kind = kind; name = meta.name; obj = none } ∷ rest

keep_warnings : List Error → List Error
keep_warnings [] = []
keep_warnings (e ∷ l) =
    let rest = keep_warnings l in if e.severity == "warning" then e ∷ rest else rest

pub record Imported : Type 0 where
  pub tree : Tree
  pub changes : List Change
  pub warnings : List Error

module _ (new_uuid : ℕ → String) where
  unfoldable pub stores : Tree → List Doc → ℕ → List Change
  stores head [] n = []
  stores head (o ∷ os) n =
      let (kind, meta) = header o in
      let (o', n') = assign_uuids new_uuid o (get head kind meta.name) n in
      record { kind = kind; name = meta.name; obj = some o' } ∷ stores head os n'

module _ (netip : Texts) (shipped : Shipped) (schema : Doc → List Issue)
    (line_of : Doc → String → ℕ) (new_uuid : ℕ → String) where
  unfoldable pub import_tree : Tree → Sources → Tree → ℕ → ApiError ⊎ Imported
  unfolding keep_warnings
  import_tree new src head n =
      let tree = imported head new in
      let all = validate netip shipped schema line_of tree in
      let errs = errors all in
      if not (is_empty errs)
      then inl (record {
        code = 422;
        msg = concat (
            "the import is not valid: "
            ∷ decimal (length errs)
            ∷ " error(s), nothing was changed"
            ∷ []);
        validation = relocate errs tree src;
        warnings = [];
      })
      else inr (record {
        tree = tree;
        changes = gone tree (each head) ++ stores new_uuid head (each tree) n;
        warnings = relocate (keep_warnings all) tree src;
      })
