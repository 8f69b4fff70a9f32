-- ===== src/Validator/RuleSets/Overlaps.antt =====
-- rulesets.go: the dnat Policies of all RuleSets: which are shadowed, which take the management port, and
-- which overlap.
use songbird_prototypes.Prelude.{
  ℕ, ◌+◌, String, Bool, ◌&&◌, ◌||◌, not, Option, none, some, List, [], ◌∷◌, ◌++◌, map, ◌==◌,
  if◌then◌else◌, contains, concat, quoted, decimal,
}
use songbird_prototypes.Model.Types.{Object, InterfaceSpec, Rule, RuleSetSpec, rule_enabled}
use songbird_prototypes.Model.System.{https_port}
use songbird_prototypes.Model.Objects.{name_of}
use songbird_prototypes.Model.Tree.{rule_set_doc}
use songbird_prototypes.Model.Lookups.{interface_named}
use songbird_prototypes.Netip.{Prefix, Texts}
use songbird_prototypes.Validator.Checks.{
  Env, Check, ◌>>◌, done, at, err, warn, when, given, for, indexed,
}
use songbird_prototypes.Validator.Network.{prefixes}
use songbird_prototypes.Validator.Intervals
use songbird_prototypes.Validator.Intervals.{Iv}
use songbird_prototypes.Validator.Sets.{
  AddrSet, SvcSet, u32, addr_set, svc_set, addr_covers, addr_overlaps, svc_covers, svc_overlaps,
  svc_has,
}

pub record DnatRule : Type 0 where
  pub rs : Object RuleSetSpec
  pub index : ℕ
  pub name : String
  pub in_ifs : List String  -- incoming Interfaces
  pub dst : AddrSet
  pub svc : SvcSet
  pub entries : ℕ

module _ (netip : Texts) (env : Env) where
  covers_rule : Rule → AddrSet → DnatRule → Bool
  covers_rule e src d =
      addr_covers (addr_set netip env.t e.source) src
      && addr_covers (addr_set netip env.t e.destination) d.dst
      && svc_covers (svc_set env.t e.service) d.svc

  -- The first enabled Policy that matches all the traffic, with its index.
  unfoldable pub first_shadow : AddrSet → DnatRule → ℕ → List Rule → Option (Rule × ℕ)
  unfolding covers_rule
  first_shadow src d j [] = none
  first_shadow src d j (e ∷ es) =
      let later = first_shadow src d (j + 1) es in
      if rule_enabled e && covers_rule e src d then some (e, j) else later

  unfoldable pub shadowed : ℕ → Rule → List Rule → DnatRule → Check (Unit {0})
  shadowed i r earlier d =
      given (first_shadow (addr_set netip env.t r.source) d 0 earlier) (λ found.
        warn "dnat-shadowed" "DM-41" (indexed "spec.rules" i) (
          concat (
            "rule "
            ∷ quoted found.0.name
            ∷ " (position "
            ∷ decimal (found.1 + 1)
            ∷ ") matches all the traffic of this dnat rule first: it would be dropped as dnat-shadowed"
            ∷ [])))

  abbrev host : Prefix → Iv
  host p = record { lo = u32 p.addr; hi = u32 p.addr }

  takes_port : DnatRule → Object InterfaceSpec → Bool
  takes_port d i =
      contains i.spec.allow_access "https"
      && (d.dst.every || Intervals.overlaps d.dst.ivs (map host (prefixes netip i)))

  unfoldable pub management_port : DnatRule → String → Check (Unit {0})
  unfolding takes_port
  management_port d base =
      let port = https_port env.sys in
      if not (svc_has d.svc "tcp" port)
      then done
      else for d.in_ifs (λ n. given (interface_named env.t n) (λ i. when (takes_port d i) (
          err "management-port" "DM-35" (concat (base ∷ ".service" ∷ [])) (
            concat (
              "tcp/"
              ∷ decimal port
              ∷ " on an address of "
              ∷ quoted n
              ∷ " is the management port (https in its allowAccess, System.admin.httpsPort)"
              ∷ [])))))

-- The first incoming Interface of both, "" if there is none.
unfoldable pub shared_in : List String → List String → String
shared_in [] b = ""
shared_in (n ∷ ns) b = if contains b n then n else shared_in ns b

unfoldable pub collide : DnatRule → DnatRule → Bool
collide a b =
    not (shared_in a.in_ifs b.in_ifs == "") && addr_overlaps a.dst b.dst && svc_overlaps a.svc b.svc

unfoldable pub pair_check : DnatRule → DnatRule → Check (Unit {0})
pair_check b a = when (collide a b) (
    at (rule_set_doc b.rs)
    >> err "dnat-overlap" "DM-41" (indexed "spec.rules" b.index) (
        concat (
          "overlaps dnat rule "
          ∷ name_of a.rs
          ∷ "/"
          ∷ a.name
          ∷ " on Interface "
          ∷ quoted (shared_in a.in_ifs b.in_ifs)
          ∷ ": the translation of a packet would be ambiguous"
          ∷ [])))

-- Each Policy with those before it.
unfoldable pub overlaps_after : List DnatRule → List DnatRule → Check (Unit {0})
overlaps_after earlier [] = done
overlaps_after earlier (b ∷ rest) =
    for earlier (pair_check b) >> overlaps_after (earlier ++ b ∷ []) rest

unfoldable pub dnat_overlaps : List DnatRule → Check (Unit {0})
unfolding overlaps_after
dnat_overlaps ds = overlaps_after [] ds
