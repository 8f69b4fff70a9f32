-- ===== src/Reconciler/Compile/Unseen.antt =====
-- compile.go: an Address counts only where the source, the destination or the dnat target of a Policy, or
-- a trusted host, stands for it. The target of an snat Policy is not resolved.
use songbird_prototypes.Prelude.{
  ℕ, ◌+◌, String, ◌≡◌, refl, ap, ◌∙◌, inl, inr, ◌&&◌, not, Option, none, some, List, [], ◌∷◌, map,
  ◌==◌, if◌then◌else◌, Bool-cases, length, All,
}
use songbird_prototypes.Model.Types.{Object, AddressSpec, ProtocolEntry, Rule, RuleSetSpec, Nat}
use songbird_prototypes.Model.System.{Dns, Ntp}
use songbird_prototypes.Model.Tree.{Tree}
use songbird_prototypes.Model.Edits.{sys}
use songbird_prototypes.Model.Lookups.{
  side, zone_named, interface_named, service_named, expand_addresses, expand_services,
}
use songbird_prototypes.Reconciler.Compile.{
  Section, Counts, dataplane, open_services, add_names, served_from, served, dns_on, ntp_on,
  dhcp_on, local_in, address_values, trusted_hosts, resolve_addresses, pairs_of, service_texts,
  resolve_services, compiled_nat, compiled_rule, compiled_rules, counted, count_rule, count_rules,
  count_set, compiled_set, count_sets, interface_addresses, dataplane_section, network_section,
  dhcp_section, dns_section, section_of, hashed, compile,
}

-- The reference that the Compiler resolves for a NAT.
unfoldable pub dnat_targets : Option Nat → List String
dnat_targets none = []
dnat_targets (some n) =
    if (n.type == "dnat") && not (n.translate_ip_to == "") then n.translate_ip_to ∷ [] else []

module _ (t : Tree) (others : List (Object AddressSpec)) where
  -- The configuration with other Addresses.
  abbrev pub changed : Tree
  changed = record t { addresses = others }

  -- References that stand for the same Addresses in both.
  abbrev pub AreKept : List String → Type 0
  AreKept refs = All (λ r. expand_addresses changed r ≡ expand_addresses t r) refs

  abbrev pub RuleIsKept : Rule → Type 0
  RuleIsKept r = AreKept r.source × AreKept r.destination × AreKept (dnat_targets r.nat)

  values-kept :
      (refs : List String) → AreKept refs → address_values changed refs ≡ address_values t refs
  unfolding address_values
  values-kept [] h = refl
  values-kept (r ∷ rs) h = rw (h.0, values-kept rs h.1)

  resolve-kept :
      (refs : List String)
      → AreKept refs
      → resolve_addresses changed refs ≡ resolve_addresses t refs
  unfolding resolve_addresses
  resolve-kept refs h = rw (values-kept refs h)

  served-kept : (l refs : List String) → served_from changed l refs ≡ served_from t l refs
  unfolding served_from side zone_named interface_named
  served-kept l [] = refl
  served-kept l (r ∷ rs) = served-kept (add_names l (side t r)) rs

  dns_on-kept : (d : Option Dns) → dns_on changed d ≡ dns_on t d
  unfolding dns_on served
  dns_on-kept none = refl
  dns_on-kept (some d) = rw (served-kept [] d.serve_to_interfaces)

  ntp_on-kept : (n : Option Ntp) → ntp_on changed n ≡ ntp_on t n
  unfolding ntp_on served
  ntp_on-kept none = refl
  ntp_on-kept (some n) = rw (served-kept [] n.serve_to_interfaces)

  local_in-kept : local_in changed ≡ local_in t
  unfolding local_in sys
  local_in-kept = λ i.
      open_services (sys t) (dhcp_on t.dhcp_servers) (dns_on-kept (sys t).dns i)
        (ntp_on-kept (sys t).ntp i)

  module _ (json : List ProtocolEntry → String) where
    texts-kept : (refs : List String) → service_texts json changed refs ≡ service_texts json t refs
    unfolding service_texts expand_services service_named
    texts-kept [] = refl
    texts-kept (r ∷ rs) = rw (texts-kept rs)

    services-kept :
        (refs : List String) → resolve_services json changed refs ≡ resolve_services json t refs
    unfolding resolve_services
    services-kept refs = rw (texts-kept refs)

    nat-kept :
        (n : Option Nat)
        → AreKept (dnat_targets n)
        → compiled_nat json changed n ≡ compiled_nat json t n
    unfolding compiled_nat dnat_targets
    nat-kept none h = refl
    nat-kept (some n) h = elim (Bool-cases ((n.type == "dnat") && not (n.translate_ip_to == ""))) [
      | inl e ↦ rw (
        e,
        services-kept (n.translate_service_to ∷ []),
        resolve-kept (n.translate_ip_to ∷ []) (rw e at h),
      )
      | inr e ↦ rw e
    ]

    rule-kept : (r : Rule) → RuleIsKept r → compiled_rule json changed r ≡ compiled_rule json t r
    unfolding compiled_rule
    rule-kept r (s, d, n) = rw (
      nat-kept r.nat n,
      resolve-kept r.source s,
      resolve-kept r.destination d,
      services-kept r.service,
    )

    rules-kept :
        (rs : List Rule)
        → All RuleIsKept rs
        → compiled_rules json changed rs ≡ compiled_rules json t rs
    unfolding compiled_rules
    rules-kept [] h = refl
    rules-kept (r ∷ rs) h = rw (rule-kept r h.0, rules-kept rs h.1)

    set-kept :
        (rs : Object RuleSetSpec)
        → All RuleIsKept rs.spec.rules
        → compiled_set json changed rs ≡ compiled_set json t rs
    unfolding compiled_set side zone_named interface_named
    set-kept rs h = rw (rules-kept rs.spec.rules h)

    sets-kept :
        (sets : List (Object RuleSetSpec))
        → All (λ rs. All RuleIsKept rs.spec.rules) sets
        → map (compiled_set json changed) sets ≡ map (compiled_set json t) sets
    sets-kept [] h = refl
    sets-kept (rs ∷ sets) h = rw (set-kept rs h.0, sets-kept sets h.1)

    count_rule-kept :
        (n : ℕ) (r : Rule) (c : Counts)
        → RuleIsKept r
        → count_rule json changed n r c ≡ count_rule json t n r c
    unfolding count_rule counted
    count_rule-kept n r c h = rw (rule-kept r h)

    count-kept :
        (n : ℕ) (rs : List Rule) (c : Counts)
        → All RuleIsKept rs
        → count_rules json changed n rs c ≡ count_rules json t n rs c
    unfolding count_rules
    count-kept n [] c h = refl
    count-kept n (r ∷ rs) c h =
        ap (λ x. count_rules json changed n rs x) (count_rule-kept n r c h.0)
        ∙ count-kept n rs (count_rule json t n r c) h.1

    counts-kept :
        (sets : List (Object RuleSetSpec)) (c : Counts)
        → All (λ rs. All RuleIsKept rs.spec.rules) sets
        → count_sets json changed sets c ≡ count_sets json t sets c
    unfolding count_sets count_set side zone_named interface_named
    counts-kept [] c h = refl
    counts-kept (rs ∷ sets) c h =
        let n = length (pairs_of (side t rs.spec.from) (side t rs.spec.to)) in
        ap (λ x. count_sets json changed sets x)
          (count-kept n rs.spec.rules (record c { pairs = c.pairs + n }) h.0)
        ∙ counts-kept sets (count_set json t rs c) h.1

    module _ (rules : All (λ rs. All RuleIsKept rs.spec.rules) t.rule_sets)
        (hosts : AreKept (trusted_hosts (sys t).admin)) where
      dataplane-kept : dataplane_section json changed ≡ dataplane_section json t
      unfolding dataplane_section sys interface_addresses
      dataplane-kept = λ i. record (dataplane_section json t) {
        sets = sets-kept t.rule_sets rules i;
        local_in = map (local_in-kept i) t.interfaces;
        trusted = values-kept (trusted_hosts (sys t).admin) hosts i;
      }

      dns-kept : dns_section changed ≡ dns_section t
      unfolding dns_section sys interface_addresses
      dns-kept = rw (dns_on-kept (sys t).dns, ntp_on-kept (sys t).ntp)

      section-kept : (d : String) → section_of json changed d ≡ section_of json t d
      unfolding section_of network_section dhcp_section
      section-kept d = λ i.
          if d == "network"
          then some (network_section t)
          else if d == "dataplane"
          then some (dataplane (dataplane-kept i))
          else if d == "dhcp"
          then some (dhcp_section t)
          else if d == "dns"
          then some (dns-kept i)
          else none

      abbrev no_counts : Counts
      no_counts = record {
        pairs = 0;
        policies = 0;
        disabled = 0;
        match_entries = 0;
        dnat_entries = 0;
      }

      -- Other Addresses leave the plan as it is when every source and destination of a Policy, every
      -- address that a dnat Policy translates to and every trusted host stands for the same Addresses:
      -- the address that an snat Policy translates to is not among them.
      pub compile-changed :
          (hash : Section → String) → compile json hash changed ≡ compile json hash t
      unfolding compile
      compile-changed hash =
          let c = counts-kept t.rule_sets no_counts rules in
          λ i. record {
            rule_sets = length t.rule_sets;
            pairs = (c i).pairs;
            policies = (c i).policies;
            disabled = (c i).disabled;
            match_entries = (c i).match_entries;
            dnat_entries = (c i).dnat_entries;
            local_in = (dataplane-kept i).local_in;
            intra_zone = (dataplane-kept i).intra_zone;
            sections = λ d. hashed hash (section-kept d i);
          }
