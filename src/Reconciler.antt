-- ===== src/Reconciler.antt =====
-- PoC-webui-v2/internal/reconciler/reconciler.go: the Reconciler's state. A Go map with absent keys is
-- a function with the zero value there; the trigger channel of capacity 1 is a flag. The channel
-- `changed`, which only wakes the waiting requests, and the stage delays are left out.
pub mod Transaction
pub mod Loop
pub mod Compile
use songbird_prototypes.Prelude.{
  ℕ, String, Bool, true, false, ◌||◌, Option, none, some, List, [], ◌∷◌, map, ◌==◌, if◌then◌else◌,
}
use songbird_prototypes.Model.Tree.{Tree}
use songbird_prototypes.Validator.Errors.{Error}

pub record ErrorInfo : Type 0 where
  pub step : String
  pub driver : String
  pub message : String
  pub validation : List Error

pub record Step : Type 0 where
  pub driver : String
  pub op : String  -- prepare, commit, rollback
  pub ok : Bool
  pub note : String

pub record Attempt : Type 0 where
  pub time : ℕ
  pub commit : String
  pub result : String  -- applied, no-op, rolled-back, invalid; "" at the start
  pub changed : List String
  pub steps : List Step
  pub error : Option ErrorInfo

pub record DriverStatus : Type 0 where
  pub name : String
  pub status : String  -- running, stopped
  pub applied_hash : String
  pub fail_next_apply : Bool
  pub stopped : Bool

pub record PlanSummary : Type 0 where
  pub rule_sets : ℕ
  pub pairs : ℕ
  pub policies : ℕ
  pub disabled : ℕ
  pub match_entries : ℕ
  pub dnat_entries : ℕ
  pub local_in : List (String × List String)
  pub intra_zone : List (String × String)
  pub sections : String → String

-- The drivers' part of the source's Status is computed, by `status`.
pub record Status : Type 0 where
  pub state : String
  pub desired_commit : String
  pub applied_commit : String
  pub last_known_good : String
  pub last_attempt : Option Attempt
  pub last_error : Option ErrorInfo
  pub drivers : List DriverStatus
  pub plan : Option PlanSummary

-- `saved` is the contents of the file last-known-good, and `reported` the calls of OnResult.
pub record Reconciler : Type 0 where
  pub st : Status
  pub applied : String → String
  pub applied_tree : Option Tree
  pub fail : String → Bool
  pub stopped : String → Bool
  pub attempts : String → Option Attempt
  pub trigger : Bool
  pub saved : Option String
  pub reported : List Attempt

abbrev pub starting : String
starting = "starting"

abbrev pub reconciling : String
reconciling = "reconciling"

abbrev pub in_sync : String
in_sync = "in-sync"

abbrev pub failed : String
failed = "failed"

abbrev pub degraded : String
degraded = "degraded"

abbrev pub driver_names : List String
driver_names = "network" ∷ "dataplane" ∷ "dhcp" ∷ "dns" ∷ []

-- The file, if it can be read, is given without the white space around it.
unfoldable pub new_reconciler : Option String → Reconciler
new_reconciler saved = record {
  st = record {
    state = starting;
    desired_commit = "";
    applied_commit = "";
    last_known_good = elim saved [ none ↦ "" | some commit ↦ commit ];
    last_attempt = none;
    last_error = none;
    drivers = [];
    plan = none;
  };
  applied = λ d. "";
  applied_tree = none;
  fail = λ d. false;
  stopped = λ d. false;
  attempts = λ c. none;
  trigger = false;
  saved = saved;
  reported = [];
}

pub driver_status : Reconciler → String → DriverStatus
driver_status r d = record {
  name = d;
  status = if r.stopped d then "stopped" else if r.applied d == "" then "stopped" else "running";
  applied_hash = r.applied d;
  fail_next_apply = r.fail d;
  stopped = r.stopped d;
}

unfoldable pub status : Reconciler → Status
status r = record (r.st) { drivers = map (driver_status r) driver_names }

-- Writing one key of a map.
unfoldable pub update {ℓ} : {A : Type ℓ} → (String → A) → String → A → String → A
update m k x j = if k == j then x else m j

-- A change of the fault flags; clearing one triggers another round.
unfoldable pub set_fault : String → Bool → Bool → Reconciler → Reconciler
set_fault driver fail stopped r =
    let flagged = record r {
      fail = update r.fail driver fail;
      stopped =
          if driver == "dhcp" || driver == "dns"
          then update r.stopped driver stopped
          else r.stopped;
    } in
    if fail then flagged else record flagged { trigger = true }

-- What a waiting request finds: the attempt for its commit, if there is one.
unfoldable pub wait : Reconciler → String → Attempt × Bool
wait r commit = elim (r.attempts commit) [
  | some a ↦ (a, true)
  | none ↦ (
    record {
      time = 0;
      commit = commit;
      result = "pending";
      changed = [];
      steps = [];
      error = none;
    },
    false,
  )
]
