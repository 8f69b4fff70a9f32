-- ===== src/Tests/CompileTests.antt =====
-- Runs of the Compiler on one snat Policy, and its theorems at concrete inputs.
use songbird_prototypes.Prelude.{
  String, ◌≡◌, refl, ◌⊎◌, inr, true, false, none, some, List, [], ◌∷◌,
}
use songbird_prototypes.Model.Types.{Object, Rule, AddressSpec, ProtocolEntry}
use songbird_prototypes.Model.Tree.{Tree, empty_tree}
use songbird_prototypes.Model.System.{empty_system}
use songbird_prototypes.Model.Edits.{sys, system_of}
use songbird_prototypes.Model.Lookups.{expand_addresses}
use songbird_prototypes.Model.Objects.{find}
use songbird_prototypes.Model.Metadata.{bare_tree, bare_set, bare, bare_rule}
use songbird_prototypes.Validator.Errors.{Error, errors}
use songbird_prototypes.Reconciler.{Reconciler, PlanSummary, new_reconciler}
use songbird_prototypes.Reconciler.Loop.{Round, reconcile}
use songbird_prototypes.Reconciler.Loop.Rounds.{Runs}
use songbird_prototypes.Reconciler.Compile.{Section, compile, trusted_hosts}
use songbird_prototypes.Reconciler.Compile.Metadata.{metadata_no_op}
use songbird_prototypes.Reconciler.Compile.Unseen.{changed, dnat_targets, compile-changed}
use songbird_prototypes.Tests.Samples.{object, subnet_address, named}

abbrev json : List ProtocolEntry → String
json ps = "protocols"

-- One text for each kind of section.
abbrev hash : Section → String
hash s = "hash"

abbrev masquerade : Rule
masquerade = record {
  name = "out";
  uuid = "";
  comment = "";
  enabled = none;
  source = "any" ∷ [];
  destination = "any" ∷ [];
  service = "any" ∷ [];
  action = "accept";
  log = "";
  nat = some (record { type = "snat"; translate_ip_to = "public"; translate_service_to = "" });
  schedule = "";
}

abbrev translating : Tree
translating = record empty_tree {
  system = object "System" "system" empty_system ∷ [];
  addresses = subnet_address "public" "192.0.2.1/32" ∷ [];
  rule_sets =
      object "RuleSet" "outbound" (record { from = "eth1"; to = "eth0"; rules = masquerade ∷ [] })
      ∷ [];
}

-- Another public address.
abbrev moved : List (Object AddressSpec)
moved = subnet_address "public" "192.0.2.2/32" ∷ []

compile-changed_example :
    compile json hash (changed translating moved) ≡ compile json hash translating
unfolding dnat_targets expand_addresses find empty_tree sys system_of empty_system trusted_hosts
compile-changed_example =
    compile-changed translating moved json ((((refl, tt), (refl, tt), tt), tt), tt) tt hash

-- The same configuration with a comment on the Address.
abbrev commented : Tree
commented = record translating {
  addresses =
      record (subnet_address "public" "192.0.2.1/32") {
        metadata = record (named "public") { comment = "our address" };
      }
      ∷ [];
}

abbrev read : Unit {0} → String → String ⊎ Tree × String
read s rev = inr (commented, "c2")

abbrev validate : Tree → List Error
validate t = []

abbrev round : Round (Unit {0})
round = record { time = 1; store = tt; fails = λ n d. false; written = true }

abbrev plan : PlanSummary
plan = compile json hash translating

abbrev settled : Reconciler
settled =
    let r : Reconciler = new_reconciler (some "c1") in
    record r {
      applied = plan.sections;
      applied_tree = some translating;
      st = record r.st { applied_commit = "c1"; last_known_good = "c1"; plan = some plan };
    }

none_found : errors (validate commented) ≡ []
unfolding errors
none_found = refl

settled-Runs : Runs translating "c1" plan settled
settled-Runs = record {
  sections = (refl, (refl, (refl, (refl, tt))));
  applied_tree = refl;
  applied_commit = refl;
  last_known_good = refl;
  plan = refl;
}

commented-bare : bare_tree commented ≡ bare_tree translating
unfolding bare_tree bare bare_set bare_rule
commented-bare = refl

metadata_no_op_example :
    let (a, r') = reconcile read validate (compile json hash) round "HEAD" settled in
    (a.result ≡ "no-op") × (a.steps ≡ []) × Runs commented "c2" (compile json hash commented) r'
metadata_no_op_example =
    metadata_no_op read validate json hash round "HEAD" "c2" "c1" translating commented settled
      settled-Runs commented-bare refl none_found
