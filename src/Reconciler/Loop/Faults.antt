-- ===== src/Reconciler/Loop/Faults.antt =====
-- reconciler.go: rounds while a fault flag is set.
use songbird_prototypes.Prelude.{
  String, ◌≡◌, sym, ap, ◌∙◌, subst, ◌≢◌, ◌⊎◌, inl, inr, true, Option, List, [], ◌∷◌, arith, ◌==◌,
  eq_iff, Bool-cases, any, all, All,
}
use mathlib.Core.Bool.{true≢false}
use mathlib.Core.Option.{none-ne-some}
use songbird_prototypes.Model.Tree.{Tree}
use songbird_prototypes.Validator.Errors.{Error, errors}
use songbird_prototypes.Reconciler.{ErrorInfo, Step, PlanSummary, Reconciler, driver_names}
use songbird_prototypes.Reconciler.Transaction.{stages, is_changed}
use songbird_prototypes.Reconciler.Transaction.Order.{is_committed, commits-changed, apply-faulted}
use songbird_prototypes.Reconciler.Loop.{Round, diff, reconcile}
use songbird_prototypes.Reconciler.Loop.Rounds.{Kept, unread, rejected, undone, applied}
use songbird_prototypes.Reconciler.Loop.Rounds.Sections.{diff-any}
use songbird_prototypes.Reconciler.Loop.Rounds.Stages.{reconcile-Ending}
use songbird_prototypes.Reconciler.Loop.Again.{reconcile-Reported}

All-at :
    (P : String → Type 0) (names : List String) (d : String)
    → any (λ e. e == d) names ≡ true
    → All P names
    → P d
All-at P [] d h all = absurd (true≢false (sym h))
All-at P (x ∷ xs) d h all = elim (Bool-cases (x == d)) [
  | inl e ↦ subst P (ground (arith, eq_iff x d)) all.0
  | inr e ↦ All-at P xs d (ground (arith, h, e)) all.1
]

changed-committed :
    (sections before : String → String) (d : String)
    → any (λ e. e == d) driver_names ≡ true
    → before d ≢ sections d
    → is_committed d (stages (diff sections before driver_names)) ≡ true
unfolding is_changed
changed-committed sections before d known differs =
    let changed = diff sections before driver_names in
    All-at (λ d. is_committed d (stages changed) ≡ is_changed changed d) driver_names d known
      (commits-changed changed)
    ∙ elim (diff-any sections before driver_names d known) [
      | inl e ↦ e
      | inr e ↦ absurd (differs e)
    ]

module _ {ℓ} {S : Type ℓ} (read : S → String → String ⊎ Tree × String)
    (validate : Tree → List Error) (compile : Tree → PlanSummary) where
  -- A round that reads a valid tree in which the section of a driver differs from the applied one, and
  -- that meets that driver's flag at every stage, is rolled back. What runs stays, and so does the
  -- flag: the next round on such a tree fails in the same way, until the flag is cleared.
  pub fault_persists :
      (round : Round S) (rev commit d : String) (tree : Tree) (r : Reconciler)
      → read round.store rev ≡ inr (tree, commit)
      → errors (validate tree) ≡ []
      → any (λ e. e == d) driver_names ≡ true
      → r.applied d ≢ (compile tree).sections d
      → round.fails ≡ (λ n. r.fail)
      → r.fail d ≡ true
      → let (a, r') = reconcile read validate compile round rev r in
        (a.result ≡ "rolled-back") × Kept r r' × (r'.fail d ≡ true)
  fault_persists round rev commit d tree r found valid known differs flags set =
      let (a, r') = reconcile read validate compile round rev r in
      let still : r'.fail d ≡ true =
        ap (λ f. f d) (reconcile-Reported read validate compile round rev r).0.fail ∙ set in
      let read_tree : (t : Tree) (c : String) → read round.store rev ≡ inr (t, c) → tree ≡ t =
        λ t c p.
          ap (λ (x : String ⊎ Tree × String). elim x [ inl _ ↦ tree | inr q ↦ q.0 ])
            (sym found ∙ p) in
      elim (reconcile-Ending read validate compile round rev r) [
        | unread _ _ s _ _ _ k ↦ (s, k, still)
        | rejected t c p bad _ _ _ _ _ _ ↦
            absurd (bad (subst (λ x. errors (validate x) ≡ []) (read_tree t c p) valid))
        | undone _ _ _ _ _ _ s _ _ _ _ k ↦ (s, k, still)
        | applied t c p ok g _ _ _ _ _ _ _ ↦
            (let differs' : r.applied d ≢ (compile t).sections d =
                subst (λ x. r.applied d ≢ (compile x).sections d) (read_tree t c p) differs in
              let (e, failed) =
                apply-faulted round.fails (diff (compile t).sections r.applied driver_names) d
                  (λ k. ap (λ f. f k d) flags ∙ set)
                  (changed-committed (compile t).sections r.applied d known differs') in
              absurd
                (none-ne-some e (sym (ap (λ (o : List Step × Option ErrorInfo). o.1) g) ∙ failed)))
      ]
