-- ===== src/Reconciler/Loop.antt =====
-- reconciler.go: `reconcile`, the five stages of reconciliation.md, and `boot`. The Config Manager's
-- `Read`, the Validator and the Compiler are parameters. What changes while a round runs is given by
-- its Round: the repository at the read, the fault flags at each stage, and whether the file
-- last-known-good could be written.
pub mod Rounds
pub mod Again
pub mod Invariant
pub mod Boot
pub mod Faults
use songbird_prototypes.Prelude.{
  ℕ, String, ◌⊎◌, inl, inr, Bool, ◌||◌, Option, none, some, List, [], ◌∷◌, ◌++◌, ◌==◌,
  if◌then◌else◌, length, concat, decimal,
}
use songbird_prototypes.Model.Tree.{Tree}
use songbird_prototypes.Validator.Errors.{Error, errors}
use songbird_prototypes.Reconciler.{
  ErrorInfo, Step, Attempt, PlanSummary, Reconciler, reconciling, in_sync, failed, degraded,
  driver_names, update,
}
use songbird_prototypes.Reconciler.Transaction.{apply}

pub record Round {ℓ} (S : Type ℓ) : Type ℓ where
  pub time : ℕ
  pub store : S
  pub fails : ℕ → String → Bool
  pub written : Bool

-- The end of an attempt: the status, the record of attempts, and the report.
unfoldable pub finish : String → Attempt → Reconciler → Attempt × Reconciler
finish state a r = (
  a,
  record r {
    st = record (r.st) { state = state; last_attempt = some a; last_error = a.error };
    attempts = if a.commit == "" then r.attempts else update r.attempts a.commit (some a);
    reported = r.reported ++ a ∷ [];
  },
)

-- The names whose section differs from the applied one.
unfoldable pub diff : (String → String) → (String → String) → List String → List String
diff sections applied [] = []
diff sections applied (d ∷ ds) =
    let rest = diff sections applied ds in if sections d == applied d then rest else d ∷ rest

unfoldable pub install : (String → String) → List String → (String → String) → String → String
install sections [] applied = applied
install sections (d ∷ ds) applied = install sections ds (update applied d (sections d))

-- What an attempt without an error leaves.
unfoldable pub accept :
    Bool → Tree → String → PlanSummary → Attempt → Reconciler → Attempt × Reconciler
accept written tree commit plan a r =
    let r' = record r {
      applied = install plan.sections a.changed r.applied;
      applied_tree = some tree;
      st = record (r.st) { applied_commit = commit; last_known_good = commit; plan = some plan };
      saved = if written then some (concat (commit ∷ "\n" ∷ [])) else r.saved;
    } in
    finish (if r'.st.desired_commit == commit then in_sync else failed) a r'

abbrev pub fresh : ℕ → Attempt
fresh time = record {
  time = time;
  commit = "";
  result = "";
  changed = [];
  steps = [];
  error = none;
}

-- After the stage Apply, from the changed drivers and what their transaction did.
unfoldable pub conclude :
    Bool
    → Tree
    → String
    → PlanSummary
    → List String
    → List Step × Option ErrorInfo
    → Attempt
    → Reconciler
    → Attempt × Reconciler
conclude written tree commit plan [] outcome a r =
    accept written tree commit plan (record a { result = "no-op" }) r
conclude written tree commit plan (d ∷ ds) (steps, some e) a r =
    finish failed
      (record a { changed = d ∷ ds; steps = steps; result = "rolled-back"; error = some e }) r
conclude written tree commit plan (d ∷ ds) (steps, none) a r =
    accept written tree commit plan
      (record a { changed = d ∷ ds; steps = steps; result = "applied" }) r

-- The stages Diff and Apply.
unfoldable pub apply_stage :
    (ℕ → String → Bool)
    → Bool
    → Tree
    → String
    → PlanSummary
    → Attempt
    → Reconciler
    → Attempt × Reconciler
apply_stage fails written tree commit plan a r =
    let changed = diff plan.sections r.applied driver_names in
    conclude written tree commit plan changed (apply fails changed) a r

abbrev pub validation_error : List Error → ErrorInfo
validation_error es = record {
  step = "validate";
  driver = "";
  message = concat (decimal (length es) ∷ " validation error(s)" ∷ []);
  validation = es;
}

abbrev pub read_error : String → ErrorInfo
read_error message = record { step = "read"; driver = ""; message = message; validation = [] }

module _ {ℓ} {S : Type ℓ} (read : S → String → String ⊎ Tree × String)
    (validate : Tree → List Error) (compile : Tree → PlanSummary) where
  -- The stages Validate and Compile, from the errors that block.
  unfoldable pub judge :
      Round S → Tree → String → List Error → Attempt → Reconciler → Attempt × Reconciler
  judge round tree commit [] a r =
      apply_stage round.fails round.written tree commit (compile tree) a r
  judge round tree commit (e ∷ es) a r =
      finish failed (record a { result = "invalid"; error = some (validation_error (e ∷ es)) }) r

  -- After the stage Read.
  unfoldable pub proceed :
      Round S → String → String ⊎ Tree × String → Attempt → Reconciler → Attempt × Reconciler
  proceed round rev (inl e) a r =
      finish degraded (record a { result = "rolled-back"; error = some (read_error e) }) r
  proceed round rev (inr (tree, commit)) a r =
      judge round tree commit (errors (validate tree)) (record a { commit = commit })
        (record r {
          st = record (r.st) {
            desired_commit = if rev == "HEAD" then commit else r.st.desired_commit;
          };
        })

  unfoldable pub reconcile : Round S → String → Reconciler → Attempt × Reconciler
  reconcile round rev r =
      proceed round rev (read round.store rev) (fresh round.time)
        (record r { st = record (r.st) { state = reconciling } })

  -- The first round, on HEAD, and the fallback to the last known good commit.
  unfoldable pub boot : Round S → Round S → Reconciler → Reconciler
  boot first second r =
      let (a, r') = reconcile first "HEAD" r in
      let (lkg, r'') = reconcile second r'.st.last_known_good r' in
      if (a.result == "applied")
        || (a.result == "no-op")
        || (r'.st.last_known_good == "")
        || (r'.st.last_known_good == a.commit)
      then r'
      else if lkg.result == "applied"
      then record r'' {
        st = record (r''.st) { state = failed; last_error = a.error; last_attempt = some a };
      }
      else r''
