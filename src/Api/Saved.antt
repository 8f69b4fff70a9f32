-- ===== src/Api/Saved.antt =====
-- config.go, `putObject` and `deleteObject`: the closure of `mutation` handed to `Update`.
use songbird_prototypes.Prelude.{
  ℕ, String, ◌≡◌, refl, sym, ◌⊎◌, inl, inr, Bool, Option, List, [], ◌∷◌,
}
use mathlib.Core.Sum.{inr-injective, inl-ne-inr}
use songbird_prototypes.Model.Tree.{Tree, Doc}
use songbird_prototypes.Netip.{Texts}
use songbird_prototypes.Predefined.{Shipped}
use songbird_prototypes.Validator.Run.{Issue}
use songbird_prototypes.Configstore.{Git, Store, Author, Change, update}
use songbird_prototypes.Configstore.Locking.{Landed, update-Landed}
use songbird_prototypes.Api.{ApiError, Edited, changes_of, mutation}
use songbird_prototypes.Api.Accepted.{IsAccepted, mutation-IsAccepted}

module _ {R : Type 0} (git : Git R) (netip : Texts) (shipped : Shipped) (schema : Doc → List Issue)
    (line_of : Doc → String → ℕ) (new_uuid : ℕ → String) (type_text : Doc → String) where
  unfoldable pub closure : String → String → Option Doc → Bool → ℕ → Tree → ApiError ⊎ List Change
  closure kind name obj create n t =
      changes_of
        (mutation netip shipped schema line_of new_uuid type_text kind name obj create t n).0

  -- The update landed with the one change that `mutation` made of the HEAD that it read, and accepted.
  pub record Saved (base : String) (a : Author) (msg kind name : String) (obj : Option Doc)
      (create : Bool) (n : ℕ) (s s' : Store R) (id : String) : Type 0 where
    pub landed : Landed git base a msg (closure kind name obj create n) s s' id
    pub result : Edited
    pub mutated :
        (mutation netip shipped schema line_of new_uuid type_text kind name obj create landed.tree
          n).0
        ≡ inr result
    pub single : landed.changes ≡ result.change ∷ []
    pub accepted :
        IsAccepted netip shipped schema line_of new_uuid kind name obj create landed.tree n result

  module _ (base : String) (a : Author) (msg kind name : String) (obj : Option Doc) (create : Bool)
      (n : ℕ) (s s' : Store R) (id : String) where
    landed-Saved :
        (l : Landed git base a msg (closure kind name obj create n) s s' id) (m : ApiError ⊎ Edited)
        → (mutation netip shipped schema line_of new_uuid type_text kind name obj create l.tree n).0
          ≡ m
        → changes_of m ≡ inr l.changes
        → Saved base a msg kind name obj create n s s' id
    unfolding changes_of
    landed-Saved l (inl e) k h = absurd (inl-ne-inr h)
    landed-Saved l (inr r) k h = record {
      landed = l;
      result = r;
      mutated = k;
      single = sym (inr-injective _ _ h);
      accepted =
          mutation-IsAccepted netip shipped schema line_of new_uuid type_text kind name obj create
            l.tree n r k;
    }

  -- When the update of `putObject` or `deleteObject` makes a commit, it has landed with the one change
  -- that `mutation` returns for HEAD: this change was accepted, its file is what was written and
  -- committed, and the base that the client gave is none, or HEAD, or a revision since which no commit
  -- has touched that file.
  pub update-Saved :
      (base : String) (a : Author) (msg kind name : String) (obj : Option Doc) (create : Bool)
      (n : ℕ) (s : Store R) (id : String)
      → (update git base a msg (closure kind name obj create n) s).0 ≡ inr id
      → Saved base a msg kind name obj create n s
          (update git base a msg (closure kind name obj create n) s).1
          id
  unfolding closure
  update-Saved base a msg kind name obj create n s id h =
      let l = update-Landed git base a msg (closure kind name obj create n) s id h in
      landed-Saved base a msg kind name obj create n s _ id l _ refl l.made
