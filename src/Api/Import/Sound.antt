-- ===== src/Api/Import/Sound.antt =====
-- config.go, `importConfig`: what holds of an import that is accepted.
use songbird_prototypes.Prelude.{
  ℕ, String, ◌≡◌, refl, subst, inl, inr, true, false, List, [], ◌∷◌, Bool-cases, All, All-append,
  is_empty, is_empty-nil,
}
use mathlib.Core.Sum.{inr-injective, inl-ne-inr}
use mathlib.Core.Bool.{true≢false}
use songbird_prototypes.Model.Tree.{Tree, Doc, header}
use songbird_prototypes.Model.Edits.{get, each}
use songbird_prototypes.Model.Uuids.{assign_uuids}
use songbird_prototypes.Netip.{Texts}
use songbird_prototypes.Predefined.{Shipped}
use songbird_prototypes.Validator.Errors.{errors}
use songbird_prototypes.Validator.Names.Unique.{NamesAreUnique}
use songbird_prototypes.Validator.Globals.Admins.{HasAdmin}
use songbird_prototypes.Validator.Groups.Acyclic.{IsAcyclic}
use songbird_prototypes.Validator.Run.{Issue, validate}
use songbird_prototypes.Validator.Run.Verdicts.{
  validate-NamesAreUnique, validate-HasAdmin, validate-IsAcyclic,
}
use songbird_prototypes.Validator.Load.{Sources}
use songbird_prototypes.Configstore.{Change}
use songbird_prototypes.Api.{is_full}
use songbird_prototypes.Api.Import.{Imported, imported, gone, stores, import_tree}

-- A change that deletes an object which the configuration has not.
abbrev pub IsSpared : Tree → Change → Type 0
IsSpared t c = is_full c.obj ≡ false → is_full (get t c.kind c.name) ≡ false

gone-IsSpared : (t : Tree) (os : List Doc) → All (IsSpared t) (gone t os)
unfolding gone
gone-IsSpared t [] = tt
gone-IsSpared t (o ∷ os) =
    let (kind, meta) = header o in
    elim (Bool-cases (is_full (get t kind meta.name))) [
      | inl e ↦ rw e (gone-IsSpared t os)
      | inr e ↦ rw e (λ h. e, gone-IsSpared t os)
    ]

stores-IsSpared :
    (new_uuid : ℕ → String) (t head : Tree) (os : List Doc) (n : ℕ)
    → All (IsSpared t) (stores new_uuid head os n)
unfolding stores
stores-IsSpared new_uuid t head [] n = tt
stores-IsSpared new_uuid t head (o ∷ os) n =
    let (kind, meta) = header o in
    let (o', n') = assign_uuids new_uuid o (get head kind meta.name) n in
    (λ h. absurd (true≢false h), stores-IsSpared new_uuid t head os n')

module _ (netip : Texts) (shipped : Shipped) (schema : Doc → List Issue)
    (line_of : Doc → String → ℕ) where
  -- What is known of an accepted import.
  pub record IsSound (head new : Tree) (r : Imported) : Type 0 where
    pub whole : r.tree ≡ imported head new
    pub valid : errors (validate netip shipped schema line_of r.tree) ≡ []
    pub spared : All (IsSpared r.tree) r.changes
    pub admin : HasAdmin r.tree.users
    pub names : NamesAreUnique (each r.tree)
    pub groups : IsAcyclic r.tree.address_groups × IsAcyclic r.tree.service_groups

  module _ (new_uuid : ℕ → String) where
    -- An import that is accepted is a configuration without an error, with the Users of HEAD when it has
    -- none of its own: it has a User with the admin Role, no two objects of one name space have the same
    -- name and no group reaches itself. A change deletes only what the configuration has not.
    pub import_tree-IsSound :
        (new head : Tree) (src : Sources) (n : ℕ) (r : Imported)
        → import_tree netip shipped schema line_of new_uuid new src head n ≡ inr r
        → IsSound head new r
    unfolding import_tree validate
    import_tree-IsSound new head src n r h =
        let tree = imported head new in
        let errs = errors (validate netip shipped schema line_of tree) in
        elim (Bool-cases (is_empty errs)) [
          | inl e ↦
              let none_left : errs ≡ [] = is_empty-nil errs e in
              subst (IsSound head new) (inr-injective _ _ (rw e at h)) (record {
                whole = refl;
                valid = none_left;
                spared =
                    All-append (IsSpared tree) (gone tree (each head))
                      (stores new_uuid head (each tree) n) (gone-IsSpared tree (each head))
                      (stores-IsSpared new_uuid tree head (each tree) n);
                admin = validate-HasAdmin netip shipped schema line_of tree none_left;
                names = validate-NamesAreUnique netip shipped schema line_of tree true none_left;
                groups = validate-IsAcyclic netip shipped schema line_of tree true none_left;
              })
          | inr e ↦ absurd (inl-ne-inr (rw e at h))
        ]
