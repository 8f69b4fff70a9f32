-- ===== src/Reconciler/Loop/Rounds.antt =====
-- reconciler.go, `reconcile`: the ways in which a round ends.
pub mod Sections
pub mod Stages
use songbird_prototypes.Prelude.{
  String, ◌≡◌, ◌≢◌, ◌⊎◌, inl, inr, none, some, List, [], ◌∷◌, ◌++◌, ◌==◌, if◌then◌else◌, All,
}
use songbird_prototypes.Model.Tree.{Tree}
use songbird_prototypes.Validator.Errors.{Error, errors}
use songbird_prototypes.Reconciler.{
  ErrorInfo, Attempt, PlanSummary, Reconciler, in_sync, failed, degraded, driver_names,
}
use songbird_prototypes.Reconciler.Transaction.{apply}
use songbird_prototypes.Reconciler.Loop.{Round, diff, validation_error, read_error}

-- What runs is as before.
pub record Kept (r r' : Reconciler) : Type 0 where
  pub applied : r'.applied ≡ r.applied
  pub applied_tree : r'.applied_tree ≡ r.applied_tree
  pub applied_commit : r'.st.applied_commit ≡ r.st.applied_commit
  pub last_known_good : r'.st.last_known_good ≡ r.st.last_known_good
  pub plan : r'.st.plan ≡ r.st.plan
  pub saved : r'.saved ≡ r.saved

-- The tree runs, under the commit.
pub record Runs (tree : Tree) (commit : String) (compiled : PlanSummary) (r : Reconciler)
    : Type 0 where
  pub sections : All (λ d. r.applied d ≡ compiled.sections d) driver_names
  pub applied_tree : r.applied_tree ≡ some tree
  pub applied_commit : r.st.applied_commit ≡ commit
  pub last_known_good : r.st.last_known_good ≡ commit
  pub plan : r.st.plan ≡ some compiled

-- What every attempt leaves: its error is shown, it is reported once, and the fault flags and the
-- trigger are untouched.
pub record Reported (a : Attempt) (r r' : Reconciler) : Type 0 where
  pub last_attempt : r'.st.last_attempt ≡ some a
  pub last_error : r'.st.last_error ≡ a.error
  pub reported : r'.reported ≡ r.reported ++ a ∷ []
  pub fail : r'.fail ≡ r.fail
  pub stopped : r'.stopped ≡ r.stopped

-- The commit that HEAD names is noted before it is validated.
abbrev pub desired : String → String → Reconciler → String
desired rev commit r = if rev == "HEAD" then commit else r.st.desired_commit

module _ {ℓ} {S : Type ℓ} (read : S → String → String ⊎ Tree × String)
    (validate : Tree → List Error) (compile : Tree → PlanSummary) where
  pub data Ending (round : Round S) (rev : String) (r : Reconciler) (a : Attempt) (r' : Reconciler)
      : Type 0 where
    unread :
        (e : String)
        → read round.store rev ≡ inl e
        → a.result ≡ "rolled-back"
        → a.error ≡ some (read_error e)
        → r'.st.state ≡ degraded
        → r'.st.desired_commit ≡ r.st.desired_commit
        → Kept r r'
        → Ending round rev r a r'
    rejected :
        (tree : Tree) (commit : String)
        → read round.store rev ≡ inr (tree, commit)
        → errors (validate tree) ≢ []
        → a.result ≡ "invalid"
        → a.error ≡ some (validation_error (errors (validate tree)))
        → a.commit ≡ commit
        → r'.st.state ≡ failed
        → r'.st.desired_commit ≡ desired rev commit r
        → Kept r r'
        → Ending round rev r a r'
    undone :
        (tree : Tree) (commit : String) (e : ErrorInfo)
        → read round.store rev ≡ inr (tree, commit)
        → errors (validate tree) ≡ []
        → apply round.fails (diff (compile tree).sections r.applied driver_names)
          ≡ (a.steps, some e)
        → a.result ≡ "rolled-back"
        → a.error ≡ some e
        → a.commit ≡ commit
        → r'.st.state ≡ failed
        → r'.st.desired_commit ≡ desired rev commit r
        → Kept r r'
        → Ending round rev r a r'
    applied :
        (tree : Tree) (commit : String)
        → read round.store rev ≡ inr (tree, commit)
        → errors (validate tree) ≡ []
        → apply round.fails (diff (compile tree).sections r.applied driver_names) ≡ (a.steps, none)
        → a.result ≡ (elim (a.changed) [ [] ↦ "no-op" | d ∷ ds ↦ "applied" ])
        → a.changed ≡ diff (compile tree).sections r.applied driver_names
        → a.error ≡ none
        → a.commit ≡ commit
        → r'.st.state ≡ (if desired rev commit r == commit then in_sync else failed)
        → r'.st.desired_commit ≡ desired rev commit r
        → Runs tree commit (compile tree) r'
        → Ending round rev r a r'
