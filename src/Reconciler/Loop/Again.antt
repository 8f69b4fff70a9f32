-- ===== src/Reconciler/Loop/Again.antt =====
-- reconciler.go: what a round leaves for the requests that wait, and for the round after it.
use songbird_prototypes.Prelude.{
  String, ◌≡◌, refl, sym, ap, subst, ◌⊎◌, inl, inr, Bool, true, false, Option, none, some, List, [],
  ◌∷◌, ◌++◌, ◌==◌, eq_refl, All,
}
use songbird_prototypes.Model.Tree.{Tree}
use songbird_prototypes.Validator.Errors.{Error, errors}
use songbird_prototypes.Reconciler.{
  ErrorInfo, Attempt, Step, PlanSummary, Reconciler, reconciling, driver_names, update, wait,
}
use songbird_prototypes.Reconciler.Transaction.{apply}
use songbird_prototypes.Reconciler.Loop.{
  install, Round, finish, diff, accept, fresh, apply_stage, conclude, judge, proceed, reconcile,
}
use songbird_prototypes.Reconciler.Loop.Rounds.{Reported, Runs, desired}
use songbird_prototypes.Reconciler.Loop.Rounds.Sections.{diff-empty}

-- The attempt was reported, from the state `r`, and can be waited for.
Told : Reconciler → Attempt × Reconciler → Type 0
Told r p = Reported p.0 r p.1 × ((p.0.commit == "") ≡ false → wait p.1 p.0.commit ≡ (p.0, true))

wait-found :
    (r : Reconciler) (commit : String) (a : Attempt)
    → r.attempts commit ≡ some a
    → wait r commit ≡ (a, true)
unfolding wait
wait-found r commit a h = rw (wait, h) refl

-- From a state that has the reports and the flags of `r`.
finish-Told :
    (r begun : Reconciler) (state : String) (a : Attempt)
    → begun.reported ≡ r.reported
    → begun.fail ≡ r.fail
    → begun.stopped ≡ r.stopped
    → Told r (finish state a begun)
unfolding Told finish update
finish-Told r begun state a p q s = (
  record {
    last_attempt = refl;
    last_error = refl;
    reported = ap (λ l. l ++ a ∷ []) p;
    fail = q;
    stopped = s;
  },
  λ h. wait-found (finish state a begun).1 a.commit a (rw (h, eq_refl a.commit) refl),
)

conclude-Told :
    (r begun : Reconciler) (written : Bool) (tree : Tree) (commit : String) (plan : PlanSummary)
    (changed : List String) (outcome : List Step × Option ErrorInfo) (a : Attempt)
    → begun.reported ≡ r.reported
    → begun.fail ≡ r.fail
    → begun.stopped ≡ r.stopped
    → Told r (conclude written tree commit plan changed outcome a begun)
unfolding conclude accept
conclude-Told r begun written tree commit plan [] outcome a p q s = finish-Told r _ _ _ p q s
conclude-Told r begun written tree commit plan (d ∷ ds) (steps, some e) a p q s =
    finish-Told r _ _ _ p q s
conclude-Told r begun written tree commit plan (d ∷ ds) (steps, none) a p q s =
    finish-Told r _ _ _ p q s

module _ {ℓ} {S : Type ℓ} (read : S → String → String ⊎ Tree × String)
    (validate : Tree → List Error) (compile : Tree → PlanSummary) where
  judge-Told :
      (r begun : Reconciler) (round : Round S) (tree : Tree) (commit : String) (es : List Error)
      (a : Attempt)
      → begun.reported ≡ r.reported
      → begun.fail ≡ r.fail
      → begun.stopped ≡ r.stopped
      → Told r (judge read validate compile round tree commit es a begun)
  unfolding judge apply_stage
  judge-Told r begun round tree commit [] a p q s =
      conclude-Told r begun round.written tree commit (compile tree)
        (diff (compile tree).sections begun.applied driver_names)
        (apply round.fails (diff (compile tree).sections begun.applied driver_names)) a p q s
  judge-Told r begun round tree commit (e ∷ es) a p q s = finish-Told r begun _ _ p q s

  proceed-Told :
      (r begun : Reconciler) (round : Round S) (rev : String) (x : String ⊎ Tree × String)
      (a : Attempt)
      → begun.reported ≡ r.reported
      → begun.fail ≡ r.fail
      → begun.stopped ≡ r.stopped
      → Told r (proceed read validate compile round rev x a begun)
  unfolding proceed
  proceed-Told r begun round rev (inl e) a p q s = finish-Told r begun _ _ p q s
  proceed-Told r begun round rev (inr (tree, commit)) a p q s =
      judge-Told r _ round tree commit (errors (validate tree)) _ p q s

  -- However a round ends, its attempt is reported once and shown in the status, the fault flags stay
  -- as they were, and a request that waits for its commit gets this attempt.
  pub reconcile-Reported :
      (round : Round S) (rev : String) (r : Reconciler)
      → let (a, r') = reconcile read validate compile round rev r in
        Reported a r r' × ((a.commit == "") ≡ false → wait r' a.commit ≡ (a, true))
  unfolding reconcile Told
  reconcile-Reported round rev r =
      proceed-Told r _ round rev (read round.store rev) (fresh round.time) refl refl refl

  -- A round on a tree whose sections all run already, found valid, does nothing to the drivers: it
  -- ends as a no-op, without a step, whatever the fault flags are.
  pub reconcile-no_op :
      (round : Round S) (rev commit : String) (tree : Tree) (r : Reconciler)
      → read round.store rev ≡ inr (tree, commit)
      → errors (validate tree) ≡ []
      → All (λ d. r.applied d ≡ (compile tree).sections d) driver_names
      → let (a, r') = reconcile read validate compile round rev r in
        (a.result ≡ "no-op") × (a.steps ≡ []) × Runs tree commit (compile tree) r'
  unfolding reconcile proceed judge apply_stage conclude accept finish install
  reconcile-no_op round rev commit tree r found valid same =
      let plan = compile tree in
      let begun = record r { st = record (r.st) { state = reconciling } } in
      let noted = record r {
        st = record (r.st) { state = reconciling; desired_commit = desired rev commit r };
      } in
      let a = record (fresh round.time) { commit = commit } in
      let NoOp = λ (p : Attempt × Reconciler).
        (p.0.result ≡ "no-op") × (p.0.steps ≡ []) × Runs tree commit plan p.1 in
      subst (λ x. NoOp (proceed read validate compile round rev x (fresh round.time) begun))
        (sym found)
        (subst (λ es. NoOp (judge read validate compile round tree commit es a noted)) (sym valid)
          (subst
            (λ ds. NoOp (conclude round.written tree commit plan ds (apply round.fails ds) a noted))
            (sym (diff-empty plan.sections r.applied driver_names same))
            (
              refl,
              refl,
              record {
                sections = same;
                applied_tree = refl;
                applied_commit = refl;
                last_known_good = refl;
                plan = refl;
              },
            )))
