-- ===== src/Reconciler/Loop/Boot.antt =====
-- reconciler.go, `boot`: the fallback to the last known good commit.
use songbird_prototypes.Prelude.{
  String, ◌≡◌, refl, sym, ap, ◌∙◌, subst, ◌⊎◌, inl, inr, false, some, List, ◌==◌, if◌then◌else◌,
  ne_of_test,
}
use mathlib.Core.Option.{none-ne-some}
use songbird_prototypes.Model.Tree.{Tree}
use songbird_prototypes.Validator.Errors.{Error}
use songbird_prototypes.Reconciler.{ErrorInfo, PlanSummary, Reconciler, failed}
use songbird_prototypes.Reconciler.Loop.{Round, reconcile, boot}
use songbird_prototypes.Reconciler.Loop.Rounds.{
  Kept, Runs, desired, unread, rejected, undone, applied,
}
use songbird_prototypes.Reconciler.Loop.Rounds.Stages.{reconcile-Ending}

module _ {ℓ} {S : Type ℓ} (read : S → String → String ⊎ Tree × String)
    (validate : Tree → List Error) (compile : Tree → PlanSummary) where
  -- A round that shows an error leaves what runs as it was.
  failed-Kept :
      (round : Round S) (rev : String) (r : Reconciler) (e : ErrorInfo)
      → (reconcile read validate compile round rev r).0.error ≡ some e
      → Kept r (reconcile read validate compile round rev r).1
  failed-Kept round rev r e h = elim (reconcile-Ending read validate compile round rev r) [
    | unread _ _ _ _ _ _ k ↦ k
    | rejected _ _ _ _ _ _ _ _ _ k ↦ k
    | undone _ _ _ _ _ _ _ _ _ _ _ k ↦ k
    | applied _ _ _ _ _ _ _ f _ _ _ _ ↦ absurd (none-ne-some e (sym f ∙ h))
  ]

  -- A round whose result is applied runs the tree that it read, and only a round on HEAD changes the
  -- commit that is wanted.
  applied-Runs :
      (round : Round S) (rev : String) (r : Reconciler) (tree : Tree) (commit : String)
      → read round.store rev ≡ inr (tree, commit)
      → (reconcile read validate compile round rev r).0.result ≡ "applied"
      → Runs tree commit (compile tree) (reconcile read validate compile round rev r).1
        × ((reconcile read validate compile round rev r).1.st.desired_commit ≡ desired rev commit r)
  applied-Runs round rev r tree commit found h =
      elim (reconcile-Ending read validate compile round rev r) [
        | unread _ _ s _ _ _ _ ↦ absurd (ne_of_test "rolled-back" "applied" refl (sym s ∙ h))
        | rejected _ _ _ _ s _ _ _ _ _ ↦ absurd (ne_of_test "invalid" "applied" refl (sym s ∙ h))
        | undone _ _ _ _ _ _ s _ _ _ _ _ ↦
            absurd (ne_of_test "rolled-back" "applied" refl (sym s ∙ h))
        | applied t c p _ _ _ _ _ _ _ d runs ↦
            subst
              (λ (q : Tree × String).
                Runs q.0 q.1 (compile q.0) (reconcile read validate compile round rev r).1
                × ((reconcile read validate compile round rev r).1.st.desired_commit
                    ≡ desired rev q.1 r))
              (ap (λ (x : String ⊎ Tree × String). elim x [ inl _ ↦ (tree, commit) | inr q ↦ q ])
                (sym p ∙ found))
              (runs, d)
      ]

  failed-result :
      (round : Round S) (rev : String) (r : Reconciler) (e : ErrorInfo)
      → let a = (reconcile read validate compile round rev r).0 in
        a.error ≡ some e → ((a.result == "applied") ≡ false) × ((a.result == "no-op") ≡ false)
  failed-result round rev r e h =
      let NotDone = λ (s : String). ((s == "applied") ≡ false) × ((s == "no-op") ≡ false) in
      elim (reconcile-Ending read validate compile round rev r) [
        | unread _ _ s _ _ _ _ ↦ subst NotDone (sym s) (refl, refl)
        | rejected _ _ _ _ s _ _ _ _ _ ↦ subst NotDone (sym s) (refl, refl)
        | undone _ _ _ _ _ _ s _ _ _ _ _ ↦ subst NotDone (sym s) (refl, refl)
        | applied _ _ _ _ _ _ _ f _ _ _ _ ↦ absurd (none-ne-some e (sym f ∙ h))
      ]

  boot-second :
      (first second : Round S) (r : Reconciler) (e : ErrorInfo)
      → let (a, r') = reconcile read validate compile first "HEAD" r in
        let (lkg, r'') = reconcile read validate compile second r'.st.last_known_good r' in
        a.error ≡ some e
        → (r'.st.last_known_good == "") ≡ false
        → (r'.st.last_known_good == a.commit) ≡ false
        → lkg.result ≡ "applied"
        → boot read validate compile first second r ≡ record r'' {
          st = record (r''.st) { state = failed; last_error = a.error; last_attempt = some a };
        }
  unfolding boot
  boot-second first second r e h nonempty other ok =
      let (first_failed, first_ran) = failed-result first "HEAD" r e h in
      rw (first_failed, first_ran, nonempty, other) (rw ok refl)

  -- The fallback: when HEAD ends with an error, a last known good commit is saved, it is not the one
  -- that was tried, and the round on it ends as applied, then the start leaves that commit's tree
  -- running, and shows the state failed with the error of HEAD, whose commit stays the wanted one.
  pub boot_fallback :
      (first second : Round S) (r : Reconciler) (e : ErrorInfo) (tree : Tree) (commit : String)
      → let (a, r') = reconcile read validate compile first "HEAD" r in
        a.error ≡ some e
        → (r.st.last_known_good == "") ≡ false
        → (r.st.last_known_good == a.commit) ≡ false
        → (r.st.last_known_good == "HEAD") ≡ false
        → read second.store r.st.last_known_good ≡ inr (tree, commit)
        → (reconcile read validate compile second r.st.last_known_good r').0.result ≡ "applied"
        → let b = boot read validate compile first second r in
          Runs tree commit (compile tree) b
          × (b.st.state ≡ failed)
          × (b.st.last_error ≡ some e)
          × (b.st.last_attempt ≡ some a)
          × (b.st.desired_commit ≡ r'.st.desired_commit)
  boot_fallback first second r e tree commit h nonempty other branch found ok =
      let (a, r') = reconcile read validate compile first "HEAD" r in
      let same : r'.st.last_known_good ≡ r.st.last_known_good =
        (failed-Kept first "HEAD" r e h).last_known_good in
      let ok' : (reconcile read validate compile second r'.st.last_known_good r').0.result
          ≡ "applied" =
        rw same ok in
      let (runs, wanted) =
        applied-Runs second r'.st.last_known_good r' tree commit (rw same found) ok' in
      let Fallen = λ (b : Reconciler).
        Runs tree commit (compile tree) b
        × (b.st.state ≡ failed)
        × (b.st.last_error ≡ some e)
        × (b.st.last_attempt ≡ some a)
        × (b.st.desired_commit ≡ r'.st.desired_commit) in
      subst Fallen (sym (boot-second first second r e h (rw same nonempty) (rw same other) ok')) (
        record {
          sections = runs.sections;
          applied_tree = runs.applied_tree;
          applied_commit = runs.applied_commit;
          last_known_good = runs.last_known_good;
          plan = runs.plan;
        },
        refl,
        h,
        refl,
        wanted
            ∙ ap (λ b. if b then commit else r'.st.desired_commit)
                (ap (λ l. l == "HEAD") same ∙ branch),
      )
