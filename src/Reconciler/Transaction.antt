-- ===== src/Reconciler/Transaction.antt =====
-- reconciler.go, `apply`: one transaction across the drivers, in the order of reconciliation.md §6.2.
-- The fault flags are read again before each stage, so they are given for each stage's number.
pub mod Order
use songbird_prototypes.Prelude.{
  ℕ, suc, String, Bool, true, false, ◌&&◌, Option, none, some, List, [], ◌∷◌, ◌++◌, map, ◌==◌,
  if◌then◌else◌, any, concat,
}
use songbird_prototypes.Reconciler.{ErrorInfo, Step}

pub record Stage : Type 0 where
  pub driver : String
  pub op : String
  pub note : String

unfoldable pub is_changed : List String → String → Bool
is_changed changed d = any (λ e. e == d) changed

unfoldable pub when {ℓ} : {A : Type ℓ} → Bool → List A → List A
when b l = if b then l else []

unfoldable pub stages : List String → List Stage
stages changed =
    let network = is_changed changed "network" in
    let dhcp = is_changed changed "dhcp" in
    let dns = is_changed changed "dns" in
    when network (record { driver = "network"; op = "prepare"; note = "pre-flight" } ∷ [])
    ++ when dhcp (record { driver = "dhcp"; op = "prepare"; note = "pre-flight" } ∷ [])
    ++ when dns (record { driver = "dns"; op = "prepare"; note = "pre-flight" } ∷ [])
    ++ when network (
        record {
          driver = "network";
          op = "commit";
          note = "additive: links, VLANs, addresses, routes";
        }
        ∷ [])
    ++ when (is_changed changed "dataplane") (
        record { driver = "dataplane"; op = "prepare"; note = "build inactive generation" }
        ∷ record { driver = "dataplane"; op = "commit"; note = "switch active_gen" }
        ∷ [])
    ++ when dhcp (record { driver = "dhcp"; op = "commit"; note = "reload" } ∷ [])
    ++ when dns (record { driver = "dns"; op = "commit"; note = "reload" } ∷ [])
    ++ when network (record { driver = "network"; op = "commit"; note = "removals" } ∷ [])

-- A stage that ran, and one that failed.
unfoldable pub done : Stage → Step
done s = record { driver = s.driver; op = s.op; ok = true; note = s.note }

unfoldable pub broken : Stage → Step
broken s = record { driver = s.driver; op = s.op; ok = false; note = "simulated failure" }

unfoldable pub rollback : String → Step
rollback d = record { driver = d; op = "rollback"; ok = true; note = "restored snapshot" }

-- The committed drivers, the last one first.
unfoldable pub rollbacks : List String → List Step
rollbacks committed = map rollback committed

unfoldable pub apply_error : Stage → ErrorInfo
apply_error s = record {
  step = "apply";
  driver = s.driver;
  message = concat (s.driver ∷ " driver: simulated failure during " ∷ s.note ∷ []);
  validation = [];
}

-- The loop over the stages from the number `n` on: the steps it adds, and the error that ended it.
-- `committed` is the source's list from its end, which is how the rollback walks through it.
unfoldable pub run :
    (ℕ → String → Bool) → ℕ → List String → List Stage → List Step × Option ErrorInfo
run fails n committed [] = ([], none)
run fails n committed (s ∷ rest) =
    let (steps, error) =
      run fails (suc n) (if s.op == "commit" then s.driver ∷ committed else committed) rest in
    if fails n s.driver && s.op == "commit"
    then (broken s ∷ rollbacks committed, some (apply_error s))
    else (done s ∷ steps, error)

unfoldable pub apply : (ℕ → String → Bool) → List String → List Step × Option ErrorInfo
apply fails changed = run fails 0 [] (stages changed)
