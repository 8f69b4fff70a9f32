-- ===== src/Reconciler/Loop/Rounds/Stages.antt =====
-- reconciler.go, `reconcile`: every round ends in one of the four ways.
use songbird_prototypes.Prelude.{
  String, ◌≡◌, refl, sym, ap, ◌∙◌, subst, ◌⊎◌, inl, inr, Bool, Option, none, some, List, [], ◌∷◌,
  All,
}
use mathlib.Core.List.{nil≢cons}
use songbird_prototypes.Model.Tree.{Tree}
use songbird_prototypes.Validator.Errors.{Error, errors}
use songbird_prototypes.Reconciler.{
  ErrorInfo, Attempt, Step, PlanSummary, Reconciler, reconciling, failed, driver_names,
}
use songbird_prototypes.Reconciler.Transaction.{apply}
use songbird_prototypes.Reconciler.Transaction.Order.{apply-empty}
use songbird_prototypes.Reconciler.Loop.{
  Round, finish, diff, install, accept, fresh, apply_stage, validation_error, conclude, judge,
  proceed, reconcile,
}
use songbird_prototypes.Reconciler.Loop.Rounds.{
  Kept, Runs, Ending, desired, unread, rejected, undone, applied,
}
use songbird_prototypes.Reconciler.Loop.Rounds.Sections.{install-diff}

accept-Runs :
    (written : Bool) (tree : Tree) (commit : String) (plan : PlanSummary) (a : Attempt)
    (r : Reconciler)
    → a.changed ≡ diff plan.sections r.applied driver_names
    → Runs tree commit plan (accept written tree commit plan a r).1
unfolding accept finish
accept-Runs written tree commit plan a r p = record {
  sections =
      subst (λ l. All (λ d. install plan.sections l r.applied d ≡ plan.sections d) driver_names)
        (sym p) (install-diff plan.sections r.applied);
  applied_tree = refl;
  applied_commit = refl;
  last_known_good = refl;
  plan = refl;
}

module _ {ℓ} {S : Type ℓ} (read : S → String → String ⊎ Tree × String)
    (validate : Tree → List Error) (compile : Tree → PlanSummary) (round : Round S) (rev : String)
    (r : Reconciler) where
  -- The state before the stage Validate.
  noted : String → Reconciler
  noted commit = record r {
    st = record (r.st) { state = reconciling; desired_commit = desired rev commit r };
  }

  begun : String → Attempt
  begun commit = record (fresh round.time) { commit = commit }

  Ends : Attempt × Reconciler → Type 0
  Ends p = Ending read validate compile round rev r p.0 p.1

  finish-Kept :
      (state : String) (a : Attempt) (commit : String) → Kept r (finish state a (noted commit)).1
  unfolding finish noted
  finish-Kept state a commit = record {
    applied = refl;
    applied_tree = refl;
    applied_commit = refl;
    last_known_good = refl;
    plan = refl;
    saved = refl;
  }

  module _ (tree : Tree) (commit : String) (found : read round.store rev ≡ inr (tree, commit)) where
    conclude-Ends :
        (changed : List String) (outcome : List Step × Option ErrorInfo)
        → errors (validate tree) ≡ []
        → changed ≡ diff (compile tree).sections r.applied driver_names
        → apply round.fails changed ≡ outcome
        → Ends (
            conclude round.written tree commit
              (compile tree)
              changed
              outcome
              (begun commit)
              (noted commit))
    unfolding conclude Ends finish noted begun accept
    conclude-Ends [] outcome valid p q =
        applied tree commit found valid (ap (apply round.fails) (sym p) ∙ apply-empty round.fails)
          refl p refl refl refl refl
          (accept-Runs round.written tree commit (compile tree)
            (record (begun commit) { result = "no-op" }) (noted commit) p)
    conclude-Ends (d ∷ ds) (steps, some e) valid p q =
        undone tree commit e found valid (ap (apply round.fails) (sym p) ∙ q) refl refl refl refl
          refl
          (finish-Kept failed
            (record (begun commit) {
              changed = d ∷ ds;
              steps = steps;
              result = "rolled-back";
              error = some e;
            })
            commit)
    conclude-Ends (d ∷ ds) (steps, none) valid p q =
        applied tree commit found valid (ap (apply round.fails) (sym p) ∙ q) refl p refl refl refl
          refl
          (accept-Runs round.written tree commit (compile tree)
            (record (begun commit) { changed = d ∷ ds; steps = steps; result = "applied" })
            (noted commit) p)

    judge-Ends :
        (es : List Error)
        → errors (validate tree) ≡ es
        → Ends (judge read validate compile round tree commit es (begun commit) (noted commit))
    unfolding judge Ends finish noted begun apply_stage
    judge-Ends [] p =
        conclude-Ends (diff (compile tree).sections r.applied driver_names)
          (apply round.fails (diff (compile tree).sections r.applied driver_names)) p refl refl
    judge-Ends (e ∷ es) p =
        rejected tree commit found (λ q. nil≢cons (sym q ∙ p)) refl
          (ap (λ l. some (validation_error l)) (sym p)) refl refl refl
          (finish-Kept failed
            (record (begun commit) { result = "invalid"; error = some (validation_error (e ∷ es)) })
            commit)

  proceed-Ends :
      (x : String ⊎ Tree × String)
      → read round.store rev ≡ x
      → Ends (
          proceed read validate compile round rev x
            (fresh round.time)
            (record r { st = record (r.st) { state = reconciling } }))
  unfolding proceed Ends finish noted begun
  proceed-Ends (inl e) p = unread e p refl refl refl refl (record {
    applied = refl;
    applied_tree = refl;
    applied_commit = refl;
    last_known_good = refl;
    plan = refl;
    saved = refl;
  })
  proceed-Ends (inr (tree, commit)) p = judge-Ends tree commit p (errors (validate tree)) refl

  -- Every round ends in one of the four ways: HEAD cannot be read, the Validator finds errors, a
  -- stage fails and the transaction is rolled back, or the tree runs.
  pub reconcile-Ending :
      Ending read validate compile round rev r
        (reconcile read validate compile round rev r).0
        (reconcile read validate compile round rev r).1
  unfolding reconcile Ends
  reconcile-Ending = proceed-Ends (read round.store rev) refl
