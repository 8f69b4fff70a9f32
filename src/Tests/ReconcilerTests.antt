-- ===== src/Tests/ReconcilerTests.antt =====
-- Runs of reconciler.go, on a repository whose revisions all hold one configuration, and its theorems
-- at such rounds.
use songbird_prototypes.Prelude.{
  String, ◌≡◌, refl, ◌⊎◌, inl, inr, Bool, true, false, ◌&&◌, some, List, [], ◌==◌, if◌then◌else◌,
  ne_of_test,
}
use songbird_prototypes.Model.Tree.{Tree}
use songbird_prototypes.Validator.Errors.{Error, errors}
use songbird_prototypes.Tests.Samples.{sample}
use songbird_prototypes.Reconciler.{
  PlanSummary, Reconciler, new_reconciler, set_fault, driver_names, failed, wait, update,
}
use songbird_prototypes.Reconciler.Transaction.{apply, stages, is_changed, run, when}
use songbird_prototypes.Reconciler.Transaction.Order.{Transaction, apply-Transaction}
use songbird_prototypes.Reconciler.Loop.{
  Round, reconcile, boot, read_error, proceed, finish, judge, apply_stage, diff, conclude, accept,
}
use songbird_prototypes.Reconciler.Loop.Rounds.{Ending, Kept, Runs, Reported}
use songbird_prototypes.Reconciler.Loop.Rounds.Stages.{reconcile-Ending}
use songbird_prototypes.Reconciler.Loop.Again.{reconcile-Reported, reconcile-no_op}
use songbird_prototypes.Reconciler.Loop.Invariant.{
  IsSound, here, next, round, fault, reachable-IsSound,
}
use songbird_prototypes.Reconciler.Loop.Boot.{boot_fallback}
use songbird_prototypes.Reconciler.Loop.Faults.{fault_persists}

-- HEAD cannot be read where the repository is `broken`.
abbrev read : Bool → String → String ⊎ Tree × String
read broken rev = if broken && (rev == "HEAD") then inl "bad object" else inr (sample, "c1")

abbrev validate : Tree → List Error
validate t = []

abbrev compile : Tree → PlanSummary
compile t = record {
  rule_sets = 0;
  pairs = 0;
  policies = 0;
  disabled = 0;
  match_entries = 0;
  dnat_entries = 0;
  local_in = [];
  intra_zone = [];
  sections = λ d. if d == "dataplane" then "h2" else "h1";
}

abbrev quiet : Bool → Round Bool
quiet broken = record { time = 1; store = broken; fails = λ n d. false; written = true }

no_errors : errors (validate sample) ≡ []
unfolding errors
no_errors = refl

apply-Transaction_example :
    Transaction
      (λ n d. d == "dns")
      0
      []
      (stages driver_names)
      (apply (λ n d. d == "dns") driver_names).0
      (apply (λ n d. d == "dns") driver_names).1
apply-Transaction_example = apply-Transaction (λ n d. d == "dns") driver_names

abbrev start : Reconciler
start = new_reconciler (some "c0")

reconcile-Ending_example :
    Ending read validate compile
      (quiet false)
      "HEAD"
      start
      (reconcile read validate compile (quiet false) "HEAD" start).0
      (reconcile read validate compile (quiet false) "HEAD" start).1
reconcile-Ending_example = reconcile-Ending read validate compile (quiet false) "HEAD" start

reconcile-Reported_example :
    let (a, r') = reconcile read validate compile (quiet false) "HEAD" start in
    Reported a start r' × ((a.commit == "") ≡ false → wait r' a.commit ≡ (a, true))
reconcile-Reported_example = reconcile-Reported read validate compile (quiet false) "HEAD" start

abbrev running : Reconciler
running = record start { applied = (compile sample).sections }

reconcile-no_op_example :
    let (a, r') = reconcile read validate compile (quiet false) "HEAD" running in
    (a.result ≡ "no-op") × (a.steps ≡ []) × Runs sample "c1" (compile sample) r'
unfolding new_reconciler
reconcile-no_op_example =
    reconcile-no_op read validate compile (quiet false) "HEAD" "c1" sample running refl no_errors
      (refl, (refl, (refl, (refl, tt))))

reachable-IsSound_example :
    IsSound read validate compile
      (set_fault "dns" true false (reconcile read validate compile (quiet false) "HEAD" start).1)
reachable-IsSound_example =
    reachable-IsSound read validate compile (some "c0")
      (set_fault "dns" true false (reconcile read validate compile (quiet false) "HEAD" start).1)
      (next (next here (round (quiet false) "HEAD" refl)) (fault "dns" true false refl))

unread :
    (reconcile read validate compile (quiet true) "HEAD" start).0.error
    ≡ some (read_error "bad object")
unfolding reconcile proceed finish
unread = refl

boot_fallback_example :
    let b = boot read validate compile (quiet true) (quiet true) start in
    Runs sample "c1" (compile sample) b
    × (b.st.state ≡ failed)
    × (b.st.last_error ≡ some (read_error "bad object"))
    × (b.st.last_attempt ≡ some (reconcile read validate compile (quiet true) "HEAD" start).0)
    × (b.st.desired_commit
        ≡ (reconcile read validate compile (quiet true) "HEAD" start).1.st.desired_commit)
unfolding new_reconciler reconcile proceed finish judge errors apply_stage diff conclude accept
    apply run stages when is_changed
boot_fallback_example =
    boot_fallback read validate compile (quiet true) (quiet true) start (read_error "bad object")
      sample "c1" unread refl refl refl refl refl

abbrev faulted : Reconciler
faulted = set_fault "dns" true false start

fault_persists_example :
    let all_flags : Round Bool = record (quiet false) { fails = λ n. faulted.fail } in
    let (a, r') = reconcile read validate compile all_flags "HEAD" faulted in
    (a.result ≡ "rolled-back") × Kept faulted r' × (r'.fail "dns" ≡ true)
unfolding set_fault update new_reconciler
fault_persists_example =
    fault_persists read validate compile (record (quiet false) { fails = λ n. faulted.fail }) "HEAD"
      "c1" "dns" sample faulted refl no_errors refl (ne_of_test "" "h1" refl) refl refl
