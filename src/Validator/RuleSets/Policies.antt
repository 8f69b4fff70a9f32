-- ===== src/Validator/RuleSets/Policies.antt =====
-- rulesets.go, `rulesets`: the RuleSets and their Policies in order, and the limits of the Data Plane.
use songbird_prototypes.Prelude.{
  ℕ, ◌+◌, ◌*◌, ◌%◌, ◌^◌, max, String, Bool, true, false, ◌&&◌, not, Option, none, some, List, [],
  ◌∷◌, ◌++◌, ◌==◌, ltb, if◌then◌else◌, length, take, drop, lookup, contains, concat, quoted,
  decimal,
}
use songbird_prototypes.Model.Types.{Object, Nat, Rule, RuleSetSpec, is_any, rule_enabled}
use songbird_prototypes.Model.Objects.{name_of}
use songbird_prototypes.Model.Tree.{Tree, Doc, rule_set_doc}
use songbird_prototypes.Model.Lookups.{bound_side, side}
use songbird_prototypes.Netip.{Texts}
use songbird_prototypes.Validator.Checks.{
  Env, Check, return, ◌>>=◌, ◌>>◌, done, at, err, warn, when, given, for_from, fold, fold_from,
  indexed, ref,
}
use songbird_prototypes.Validator.Intervals
use songbird_prototypes.Validator.Sets.{addr_set, svc_set, port_count}
use songbird_prototypes.Validator.RuleSets.{
  dotted, zone_members, address_refs, dnat_destination, nat_check,
}
use songbird_prototypes.Validator.RuleSets.Overlaps.{
  DnatRule, shadowed, management_port, dnat_overlaps,
}

abbrev pub max_policies_per_rule_set : ℕ
max_policies_per_rule_set = 1024

abbrev pub max_rule_sets : ℕ
max_rule_sets = 256

abbrev pub max_dnat_entries : ℕ
max_dnat_entries = 16_384

-- The dnat Policies so far, and the entries that they expand to.
pub record Dnats : Type 0 where
  pub rules : List DnatRule
  pub entries : ℕ

-- The variables of the loop over the Policies of a RuleSet.
pub record Seen : Type 0 where
  pub enabled : ℕ
  pub names : List String
  pub dnats : Dnats

abbrev pub dnat_of : Option Nat → Bool
dnat_of none = false
dnat_of (some n) = n.type == "dnat"

abbrev pub target_of : Option Nat → String
target_of none = ""
target_of (some n) = n.translate_ip_to

-- The `dnatRule` of a Policy.
unfoldable pub dnat_rule : Texts → Tree → Object RuleSetSpec → ℕ → Rule → DnatRule
dnat_rule netip t rs i r =
    let dst = addr_set netip t r.destination in
    let svc = svc_set t r.service in
    record {
      rs = rs;
      index = i;
      name = r.name;
      in_ifs = side t rs.spec.from;
      dst = dst;
      svc = svc;
      entries = (max 1 (Intervals.size dst.ivs) * port_count svc) % 2 ^ 64;
    }

module _ (netip : Texts) (env : Env) where
  -- An enabled dnat Policy with a target.
  unfoldable pub collect : Object RuleSetSpec → ℕ → Rule → Dnats → Check Dnats
  collect rs i r ds = do
    let d = dnat_rule netip env.t rs i r
    let base = indexed "spec.rules" i
    let total = (ds.entries + d.entries) % 2 ^ 64
    when (ltb max_dnat_entries total) (
        err "dnat-limit" "ADR-0006" (dotted base ".destination") (
          concat (
            "DNAT entries after port expansion reach "
            ∷ decimal total
            ∷ ", above the limit of "
            ∷ decimal max_dnat_entries
            ∷ [])))
    shadowed netip env i r (take i rs.spec.rules) d
    management_port netip env d base
    return (record { rules = ds.rules ++ d ∷ []; entries = total })

  policy_services : Rule → String → Check (Unit {0})
  policy_services r base =
      if is_any r.service
      then done
      else for_from 0 r.service (λ k sv.
        ref env.svc_ns sv (indexed (dotted base ".service") k) ("Service" ∷ "ServiceGroup" ∷ [])
        >>= λ o. done)

  policy_destination : Object RuleSetSpec → Rule → String → Check (Unit {0})
  policy_destination rs r base =
      if dnat_of r.nat
      then address_refs env r.destination (dotted base ".destination") none "" "" true
        >> dnat_destination netip env r.destination (dotted base ".destination")
            (side env.t rs.spec.from) rs.spec.from
      else address_refs env r.destination (dotted base ".destination") (bound_side env.t rs.spec.to)
          rs.spec.to "leaves through" true

  unfoldable pub policy : Object RuleSetSpec → ℕ → Rule → Seen → Check Seen
  unfolding policy_services policy_destination
  policy rs i r s = do
    let base = indexed "spec.rules" i
    when (contains s.names r.name) (
        err "duplicate-rule" "DM-01" (dotted base ".name")
          (concat ("rule name " ∷ quoted r.name ∷ " is repeated in this RuleSet" ∷ [])))
    address_refs env r.source (dotted base ".source") (bound_side env.t rs.spec.from) rs.spec.from
        "enters from" false
    policy_destination rs r base
    policy_services r base
    when (not (r.schedule == "")) (
        warn "schedule-reserved" "schema" (dotted base ".schedule")
          "schedule is reserved for a future Schedule kind and is ignored")
    given r.nat (nat_check netip env r base (side env.t rs.spec.to) rs.spec.to)
    ds ←
        if dnat_of r.nat && rule_enabled r && not (target_of r.nat == "")
        then collect rs i r s.dnats
        else return s.dnats
    return (record {
      enabled = if rule_enabled r then s.enabled + 1 else s.enabled;
      names = r.name ∷ s.names;
      dnats = ds;
    })

  sides_check : RuleSetSpec → Option Doc → Option Doc → Check (Unit {0})
  sides_check s (some from) (some to) = if s.from == s.to then done else zone_members env s from to
  sides_check s _ _ = done

  -- The pairs of sides that a RuleSet governs, with its name: the map `pairs`.
  abbrev pair_key : RuleSetSpec → String
  pair_key s = concat (s.from ∷ "\0" ∷ s.to ∷ [])

  unfoldable pub rule_set :
      Object RuleSetSpec → List (String × String) × Dnats → Check (List (String × String) × Dnats)
  unfolding sides_check
  rule_set rs (pairs, ds) = do
    let s = rs.spec
    at (rule_set_doc rs)
    from ← ref env.net_ns s.from "spec.from" []
    to ← ref env.net_ns s.to "spec.to" []
    when (s.from == s.to) (
        err "same-side" "DM-06" "spec.to"
          "from and to must differ (intra-zone traffic uses Interface-to-Interface RuleSets, DM-38)")
    given (lookup (pair_key s) pairs) (λ other.
        err "duplicate-pair" "DM-07" "spec"
          (concat ("RuleSet " ∷ quoted other ∷ " already governs " ∷ s.from ∷ " -> " ∷ s.to ∷ [])))
    sides_check s from to
    seen ← fold_from 0 s.rules (policy rs) (record { enabled = 0; names = []; dnats = ds })
    when (ltb max_policies_per_rule_set seen.enabled) (
        err "policy-limit" "DM-36" "spec.rules" (
          concat (
            decimal seen.enabled
            ∷ " enabled Policies exceed the per-RuleSet limit of "
            ∷ decimal max_policies_per_rule_set
            ∷ " (ADR-0006)"
            ∷ [])))
    return ((pair_key s, name_of rs) ∷ pairs, seen.dnats)

  -- The RuleSet at the limit, if there is one, is above it.
  unfoldable pub limit_check : List (Object RuleSetSpec) → Check (Unit {0})
  limit_check [] = done
  limit_check (rs ∷ rest) =
      at (rule_set_doc rs)
      >> err "ruleset-limit" "ADR-0006" "metadata.name" (
          concat (
            decimal (length env.t.rule_sets)
            ∷ " RuleSets exceed the Data Plane limit of "
            ∷ decimal max_rule_sets
            ∷ []))

  unfoldable pub rule_sets : Check (Unit {0})
  unfolding limit_check
  rule_sets = do
    limit_check (drop max_rule_sets env.t.rule_sets)
    result ← fold env.t.rule_sets rule_set ([], record { rules = []; entries = 0 })
    dnat_overlaps result.1.rules
