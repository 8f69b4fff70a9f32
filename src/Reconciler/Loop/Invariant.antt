-- ===== src/Reconciler/Loop/Invariant.antt =====
-- reconciler.go: what holds after the start, any rounds and any faults, in any order.
use songbird_prototypes.Prelude.{
  String, ◌≡◌, refl, sym, ap, ◌∙◌, subst, ◌≢◌, ◌⊎◌, inl, inr, Bool, true, false, Option, none, some,
  List, [], arith, ◌==◌, eq_iff, if◌then◌else◌, Bool-cases, if_both, All, ne_of_test,
}
use mathlib.Core.Option.{some-injective, none-ne-some}
use songbird_prototypes.Model.Tree.{Tree}
use songbird_prototypes.Validator.Errors.{Error, errors}
use songbird_prototypes.Reconciler.{
  PlanSummary, Reconciler, in_sync, failed, degraded, driver_names, set_fault, new_reconciler,
  starting,
}
use songbird_prototypes.Reconciler.Loop.{Round, reconcile, boot}
use songbird_prototypes.Reconciler.Loop.Rounds.{Kept, Runs, unread, rejected, undone, applied}
use songbird_prototypes.Reconciler.Loop.Again.{reconcile-Reported}
use songbird_prototypes.Reconciler.Loop.Rounds.Stages.{reconcile-Ending}

only_desired :
    (wanted commit : String)
    → (if wanted == commit then in_sync else failed) ≡ in_sync
    → wanted ≡ commit
only_desired wanted commit h = elim (Bool-cases (wanted == commit)) [
  | inl e ↦ ground (arith, eq_iff wanted commit)
  | inr e ↦
      absurd (
        ne_of_test failed in_sync refl (subst (λ b. (if b then in_sync else failed) ≡ in_sync) e h))
]

module _ {ℓ} {S : Type ℓ} (read : S → String → String ⊎ Tree × String)
    (validate : Tree → List Error) (compile : Tree → PlanSummary) where
  -- The running tree was found valid, and the drivers have its Plan; the state in-sync is shown only
  -- for a commit that runs and is saved as known good, without an error.
  pub record IsSound (r : Reconciler) : Type 0 where
    pub valid : (t : Tree) → r.applied_tree ≡ some t → errors (validate t) ≡ []
    pub installed :
        (t : Tree)
        → r.applied_tree ≡ some t
        → All (λ d. r.applied d ≡ (compile t).sections d) driver_names
    pub known_good :
        (t : Tree) → r.applied_tree ≡ some t → r.st.last_known_good ≡ r.st.applied_commit
    pub in_sync_is_applied :
        r.st.state ≡ in_sync
        → (r.st.desired_commit ≡ r.st.applied_commit) × (r.st.last_error ≡ none)

  Kept-IsSound : (r r' : Reconciler) → Kept r r' → r'.st.state ≢ in_sync → IsSound r → IsSound r'
  Kept-IsSound r r' k out h = record {
    valid = λ t e. h.valid t (sym k.applied_tree ∙ e);
    installed = λ t e.
        subst (λ m. All (λ d. m d ≡ (compile t).sections d) driver_names) (sym k.applied)
          (h.installed t (sym k.applied_tree ∙ e));
    known_good =
        λ t e. k.last_known_good ∙ h.known_good t (sym k.applied_tree ∙ e) ∙ sym k.applied_commit;
    in_sync_is_applied = λ e. absurd (out e);
  }

  Runs-IsSound :
      (tree : Tree) (commit : String) (r' : Reconciler)
      → errors (validate tree) ≡ []
      → Runs tree commit (compile tree) r'
      → r'.st.last_error ≡ none
      → r'.st.state ≡ (if r'.st.desired_commit == commit then in_sync else failed)
      → IsSound r'
  Runs-IsSound tree commit r' ok runs fine state = record {
    valid = λ t e.
        subst (λ x. errors (validate x) ≡ []) (some-injective tree t (sym runs.applied_tree ∙ e))
          ok;
    installed = λ t e.
        subst (λ x. All (λ d. r'.applied d ≡ (compile x).sections d) driver_names)
          (some-injective tree t (sym runs.applied_tree ∙ e)) runs.sections;
    known_good = λ t e. runs.last_known_good ∙ sym runs.applied_commit;
    in_sync_is_applied = λ e.
        (only_desired r'.st.desired_commit commit (sym state ∙ e) ∙ sym runs.applied_commit, fine);
  }

  round-IsSound :
      (round : Round S) (rev : String) (r : Reconciler)
      → IsSound r
      → IsSound (reconcile read validate compile round rev r).1
  round-IsSound round rev r h =
      let (a, r') = reconcile read validate compile round rev r in
      elim (reconcile-Ending read validate compile round rev r) [
        | unread e _ _ _ s _ k ↦
            Kept-IsSound r r' k (λ x. ne_of_test degraded in_sync refl (sym s ∙ x)) h
        | rejected t c _ _ _ _ _ s _ k ↦
            Kept-IsSound r r' k (λ x. ne_of_test failed in_sync refl (sym s ∙ x)) h
        | undone t c e _ _ _ _ _ _ s _ k ↦
            Kept-IsSound r r' k (λ x. ne_of_test failed in_sync refl (sym s ∙ x)) h
        | applied t c _ ok _ _ _ none_left _ s d runs ↦
            Runs-IsSound t c r' ok runs
              ((reconcile-Reported read validate compile round rev r).0.last_error ∙ none_left)
              (s ∙ ap (λ x. if x == c then in_sync else failed) (sym d))
      ]

  -- What changes the state of a program that runs: the loop's rounds, on HEAD or at the start on any
  -- commit, the start with its fallback, and the fault flags.
  pub data Change (r : Reconciler) : Reconciler → Type ℓ where
    round :
        {r' : Reconciler} (now : Round S) (rev : String)
        → r' ≡ (reconcile read validate compile now rev r).1
        → Change r r'
    start :
        {r' : Reconciler} (first second : Round S)
        → r' ≡ boot read validate compile first second r
        → Change r r'
    fault :
        {r' : Reconciler} (driver : String) (fail stopped : Bool)
        → r' ≡ set_fault driver fail stopped r
        → Change r r'

  pub data Reach (r : Reconciler) : Reconciler → Type ℓ where
    here : Reach r r
    next : {u v : Reconciler} → Reach r u → Change u v → Reach r v

  fault-IsSound :
      (driver : String) (fail stopped : Bool) (r : Reconciler)
      → IsSound r
      → IsSound (set_fault driver fail stopped r)
  unfolding set_fault
  fault-IsSound driver true stopped r h = record {
    valid = h.valid;
    installed = h.installed;
    known_good = h.known_good;
    in_sync_is_applied = h.in_sync_is_applied;
  }
  fault-IsSound driver false stopped r h = record {
    valid = h.valid;
    installed = h.installed;
    known_good = h.known_good;
    in_sync_is_applied = h.in_sync_is_applied;
  }

  new-IsSound : (saved : Option String) → IsSound (new_reconciler saved)
  unfolding new_reconciler
  new-IsSound saved = record {
    valid = λ t e. absurd (none-ne-some t e);
    installed = λ t e. absurd (none-ne-some t e);
    known_good = λ t e. absurd (none-ne-some t e);
    in_sync_is_applied = λ e. absurd (ne_of_test starting in_sync refl e);
  }

  boot-IsSound :
      (first second : Round S) (r : Reconciler)
      → IsSound r
      → IsSound (boot read validate compile first second r)
  unfolding boot
  boot-IsSound first second r h =
      let (a, r') = reconcile read validate compile first "HEAD" r in
      let (lkg, r'') = reconcile read validate compile second r'.st.last_known_good r' in
      let once : IsSound r' = round-IsSound first "HEAD" r h in
      let twice : IsSound r'' = round-IsSound second r'.st.last_known_good r' once in
      if_both IsSound _ _ _ once (
        if_both IsSound (lkg.result == "applied") _ _
          (record {
            valid = twice.valid;
            installed = twice.installed;
            known_good = twice.known_good;
            in_sync_is_applied = λ e. absurd (ne_of_test failed in_sync refl e);
          })
          twice)

  -- After the start of the program, with any file last-known-good, and any rounds, starts and changes
  -- of the fault flags: a tree that runs was found valid, all drivers have the sections of its Plan,
  -- its commit is the last known good one, and the state in-sync is shown only when HEAD's commit is
  -- the one that runs and no error is shown.
  pub reachable-IsSound :
      (saved : Option String) (r : Reconciler) → Reach (new_reconciler saved) r → IsSound r
  reachable-IsSound saved r here = new-IsSound saved
  reachable-IsSound saved r (next before (round now rev e)) =
      subst IsSound (sym e) (round-IsSound now rev _ (reachable-IsSound saved _ before))
  reachable-IsSound saved r (next before (start first second e)) =
      subst IsSound (sym e) (boot-IsSound first second _ (reachable-IsSound saved _ before))
  reachable-IsSound saved r (next before (fault driver fail stopped e)) =
      subst IsSound (sym e) (fault-IsSound driver fail stopped _ (reachable-IsSound saved _ before))
