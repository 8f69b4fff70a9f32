-- ===== src/Api/Accepted.antt =====
-- config.go, `mutation`: what holds of a change that it accepts.
use songbird_prototypes.Prelude.{
  ℕ, String, ◌≡◌, refl, sym, ap, ◌∙◌, subst, ◌⊎◌, inl, inr, Bool, true, false, not, Option, none,
  some, List, [], ◌∷◌, arith, ◌==◌, Bool-cases, All, is_empty, is_empty-nil, ne_of_test,
}
use mathlib.Core.Bool.{true≢false}
use mathlib.Core.Sum.{inr-injective, inl-ne-inr}
use songbird_prototypes.Model.Tree.{Tree, Doc, kind_by_name, file_path}
use songbird_prototypes.Model.Edits.{get, put, delete}
use songbird_prototypes.Model.Uuids.{assign_uuids}
use songbird_prototypes.Netip.{Texts}
use songbird_prototypes.Predefined.{Shipped}
use songbird_prototypes.Validator.Errors.{Error, errors}
use songbird_prototypes.Validator.Run.{Issue, validate}
use songbird_prototypes.Configstore.{is_known}
use songbird_prototypes.Api.{
  ApiError, Edited, draft, is_old, keep_new, new_errors, warnings_for, guard, protected, is_full,
  judged, stored, removed, edited, guarded, mutation,
}

keep_new-none :
    (old : Error → Bool) (l : List Error) → keep_new old l ≡ [] → All (λ e. old e ≡ true) l
unfolding keep_new
keep_new-none old [] h = tt
keep_new-none old (e ∷ l) h = elim (Bool-cases (old e)) [
  | inl k ↦ (k, keep_new-none old l (rw k at h))
  | inr k ↦ absurd (ground (arith, h, k))
]

none_known : (before l : List Error) → before ≡ [] → All (λ e. is_old before e ≡ true) l → l ≡ []
unfolding is_old
none_known before [] h k = refl
none_known before (e ∷ l) h (k, ks) = absurd (true≢false (sym k ∙ ap (λ b. is_old b e) h))

-- An object to edit exists, one to create does not, and the System is neither created nor deleted.
pub record IsAllowed (kind : String) (create del exists : Bool) : Type 0 where
  pub target : exists ≡ not create
  pub singleton : kind ≡ "System" → (create ≡ false) × (del ≡ false)

guard-IsAllowed :
    (kind name : String) (create del exists : Bool)
    → guard kind name create del exists ≡ none
    → IsAllowed kind create del exists
unfolding guard
guard-IsAllowed kind name true del true h = absurd (ground (arith, h))
guard-IsAllowed kind name false del false h = absurd (ground (arith, h))
guard-IsAllowed kind name true del false h = elim (Bool-cases (kind == "System")) [
  | inl k ↦ absurd (ground (arith, rw k at h))
  | inr k ↦ record { target = refl; singleton = λ e. absurd (ne_of_test kind "System" k e) }
]
guard-IsAllowed kind name false true true h = elim (Bool-cases (kind == "System")) [
  | inl k ↦ absurd (ground (arith, rw k at h))
  | inr k ↦ record { target = refl; singleton = λ e. absurd (ne_of_test kind "System" k e) }
]
guard-IsAllowed kind name false false true h = record {
  target = refl;
  singleton = λ e. (refl, refl);
}

-- What a change makes of HEAD: without a document the object is deleted; a document is stored with its
-- uuids, which `n` calls of `NewUUID` precede.
pub Made : (ℕ → String) → String → String → Option Doc → Tree → ℕ → Edited → Type 0
Made new_uuid kind name none t n r = (r.change.obj ≡ none) × (r.tree ≡ (delete t kind name).0)
Made new_uuid kind name (some o) t n r =
    let o' = (assign_uuids new_uuid o (get t kind name) n).0 in
    (r.change.obj ≡ some o') × (put t o' ≡ some r.tree)

module _ (netip : Texts) (shipped : Shipped) (schema : Doc → List Issue)
    (line_of : Doc → String → ℕ) where
  abbrev findings : Tree → List Error
  findings t = validate netip shipped schema line_of t

  -- What is known of an accepted change.
  pub record IsAccepted (new_uuid : ℕ → String) (kind name : String) (obj : Option Doc)
      (create : Bool) (t : Tree) (n : ℕ) (r : Edited) : Type 0 where
    pub allowed : IsAllowed kind create (not (is_full obj)) (is_full (get t kind name))
    pub kept : (is_full obj ≡ true) ⊎ (protected shipped kind name ≡ none)
    pub made : Made new_uuid kind name obj t n r
    pub known : All (λ e. is_old (findings t) e ≡ true) (errors (findings r.tree))
    pub change : (r.change.kind ≡ kind) × (r.change.name ≡ name)
    pub shown : (r.before ≡ get t kind name) × (r.after ≡ r.change.obj)
    pub warned : r.warnings ≡ warnings_for (findings r.tree) (file_path kind name)

module _ (netip : Texts) (shipped : Shipped) (schema : Doc → List Issue)
    (line_of : Doc → String → ℕ) (new_uuid : ℕ → String) (type_text : Doc → String) where
  module _ (kind name : String) (obj : Option Doc) (create : Bool) (t : Tree) (n : ℕ)
      (a : IsAllowed kind create (not (is_full obj)) (is_full (get t kind name))) where
    abbrev Fine : Edited → Type 0
    Fine r = IsAccepted netip shipped schema line_of new_uuid kind name obj create t n r

    -- A draft that the verdict leaves is the result, with the warnings of its tree.
    judged-Fine :
        (after : Option Doc) (t' : Tree) (r : Edited)
        → (is_full obj ≡ true) ⊎ (protected shipped kind name ≡ none)
        → ((warns : List Error)
            → Made new_uuid kind name obj t n
                (record (draft kind name (get t kind name) after t') { warnings = warns }))
        → judged netip shipped schema line_of new_uuid type_text kind name t
            (draft kind name (get t kind name) after t')
          ≡ inr r
        → Fine r
    unfolding judged new_errors
    judged-Fine after t' r k made h =
        let after_all = findings netip shipped schema line_of t' in
        let news = new_errors (findings netip shipped schema line_of t) after_all in
        let warns = warnings_for after_all (file_path kind name) in
        elim (Bool-cases (is_empty news)) [
          | inl e ↦ subst Fine (inr-injective _ _ (rw e at h)) (record {
            allowed = a;
            kept = k;
            made = made warns;
            known = keep_new-none _ _ (is_empty-nil news e);
            change = (refl, refl);
            shown = (refl, refl);
            warned = refl;
          })
          | inr e ↦ absurd (inl-ne-inr (rw e at h))
        ]

  stored-Fine :
      (kind name : String) (o : Doc) (create : Bool) (t : Tree) (n : ℕ) (r : Edited)
      (w : Option Tree)
      → IsAllowed kind create false (is_full (get t kind name))
      → put t (assign_uuids new_uuid o (get t kind name) n).0 ≡ w
      → stored netip shipped schema line_of new_uuid type_text kind name t
          (get t kind name)
          (assign_uuids new_uuid o (get t kind name) n).0
          w
        ≡ inr r
      → IsAccepted netip shipped schema line_of new_uuid kind name (some o) create t n r
  unfolding stored Made
  stored-Fine kind name o create t n r none a e h = absurd (inl-ne-inr h)
  stored-Fine kind name o create t n r (some t') a e h =
      judged-Fine kind name (some o) create t n a
        (some (assign_uuids new_uuid o (get t kind name) n).0) t' r (inl refl) (λ warns. (refl, e))
        h

  removed-Fine :
      (kind name : String) (create : Bool) (t : Tree) (n : ℕ) (r : Edited) (p : Option ApiError)
      → IsAllowed kind create true (is_full (get t kind name))
      → protected shipped kind name ≡ p
      → removed netip shipped schema line_of new_uuid type_text kind name t (get t kind name) p
        ≡ inr r
      → IsAccepted netip shipped schema line_of new_uuid kind name none create t n r
  unfolding removed Made
  removed-Fine kind name create t n r (some e) a k h = absurd (inl-ne-inr h)
  removed-Fine kind name create t n r none a k h =
      judged-Fine kind name none create t n a none (delete t kind name).0 r (inr k)
        (λ warns. (refl, refl)) h

  edited-IsAccepted :
      (kind name : String) (obj : Option Doc) (create : Bool) (t : Tree) (r : Edited) (n : ℕ)
      → IsAllowed kind create (not (is_full obj)) (is_full (get t kind name))
      → (edited netip shipped schema line_of new_uuid type_text kind name obj t
          (get t kind name)
          n).0
        ≡ inr r
      → IsAccepted netip shipped schema line_of new_uuid kind name obj create t n r
  unfolding edited
  edited-IsAccepted kind name none create t r n a h =
      removed-Fine kind name create t n r (protected shipped kind name) a refl h
  edited-IsAccepted kind name (some o) create t r n a h =
      stored-Fine kind name o create t n r (put t (assign_uuids new_uuid o (get t kind name) n).0) a
        refl h

  guarded-IsAccepted :
      (kind name : String) (obj : Option Doc) (create : Bool) (t : Tree) (r : Edited) (n : ℕ)
      (g : Option ApiError)
      → guard kind name create (not (is_full obj)) (is_full (get t kind name)) ≡ g
      → (guarded netip shipped schema line_of new_uuid type_text g kind name obj t
          (get t kind name)
          n).0
        ≡ inr r
      → IsAccepted netip shipped schema line_of new_uuid kind name obj create t n r
  unfolding guarded
  guarded-IsAccepted kind name obj create t r n (some e) g h = absurd (inl-ne-inr h)
  guarded-IsAccepted kind name obj create t r n none g h =
      edited-IsAccepted kind name obj create t r n (guard-IsAllowed kind name _ _ _ g) h

  -- A change that is accepted deletes its object from HEAD, or stores it there with its uuids; the tree
  -- that comes of it has no error without a finding of the same key at HEAD, and the change that is
  -- returned is that of the object as it was stored. The object exists, or does not where it is created;
  -- the System is neither created nor deleted, and a Color or a Service that is shipped with the program
  -- is not deleted. The objects before and after, and the warnings of the object's file, are returned.
  pub mutation-IsAccepted :
      (kind name : String) (obj : Option Doc) (create : Bool) (t : Tree) (n : ℕ) (r : Edited)
      → (mutation netip shipped schema line_of new_uuid type_text kind name obj create t n).0
        ≡ inr r
      → IsAccepted netip shipped schema line_of new_uuid kind name obj create t n r
  unfolding mutation
  mutation-IsAccepted kind name obj create t n r h =
      elim (Bool-cases (is_known (kind_by_name kind))) [
        | inl k ↦ guarded-IsAccepted kind name obj create t r n _ refl (rw k at h)
        | inr k ↦ absurd (inl-ne-inr (rw k at h))
      ]

  -- From a HEAD without findings, an accepted change leads to a configuration without errors.
  pub mutation-valid :
      (kind name : String) (obj : Option Doc) (create : Bool) (t : Tree) (n : ℕ) (r : Edited)
      → validate netip shipped schema line_of t ≡ []
      → (mutation netip shipped schema line_of new_uuid type_text kind name obj create t n).0
        ≡ inr r
      → errors (validate netip shipped schema line_of r.tree) ≡ []
  unfolding is_old
  mutation-valid kind name obj create t n r e h =
      none_known _ _ e (mutation-IsAccepted kind name obj create t n r h).known
