-- ===== src/Reconciler/Compile/Metadata.antt =====
-- compile.go: metadata never reaches a driver.
use songbird_prototypes.Prelude.{
  ℕ, ◌+◌, String, ◌≡◌, refl, sym, ap, ◌∙◌, subst, ◌⊎◌, inr, Option, none, some, List, [], ◌∷◌, map,
  ◌==◌, if◌then◌else◌, length, All, length-map,
}
use songbird_prototypes.Model.Types.{
  Object, InterfaceSpec, StaticRouteSpec, DhcpServerSpec, ServiceSpec, ProtocolEntry, Rule,
  RuleSetSpec, Nat, rule_enabled, address_value,
}
use songbird_prototypes.Model.System.{SystemSpec, Dns, Ntp}
use songbird_prototypes.Model.Tree.{Tree}
use songbird_prototypes.Model.Edits.{sys}
use songbird_prototypes.Model.Lookups.{side, expand_addresses, expand_services}
use songbird_prototypes.Model.Metadata.{bare, bare_rule, bare_set, bare_tree}
use songbird_prototypes.Model.Metadata.Names.{map_both, side-bare, sys-bare}
use songbird_prototypes.Model.Metadata.Expansions.{expand_addresses-bare, expand_services-bare}
use songbird_prototypes.Validator.Errors.{Error, errors}
use songbird_prototypes.Reconciler.{PlanSummary, Reconciler, driver_names}
use songbird_prototypes.Reconciler.Loop.{Round, reconcile}
use songbird_prototypes.Reconciler.Loop.Rounds.{Runs}
use songbird_prototypes.Reconciler.Loop.Again.{reconcile-no_op}
use songbird_prototypes.Reconciler.Compile.{
  Section, Counts, link_of, add_names, served_from, served, dns_on, ntp_on, dhcp_on, open_services,
  local_in, address_values, trusted_hosts, resolve_addresses, pairs_of, service_texts,
  resolve_services, compiled_nat, compiled_rule, compiled_rules, counted, count_rule, count_set,
  count_rules, compiled_set, count_sets, zone_traffic, interface_addresses, dataplane_section,
  network, dataplane, dhcp, network_section, dhcp_section, dns_section, section_of, hashed, compile,
}

module _ (t : Tree) where
  served-bare : (l refs : List String) → served_from (bare_tree t) l refs ≡ served_from t l refs
  unfolding served_from
  served-bare l [] = refl
  served-bare l (r ∷ rs) = rw (side-bare t r) (served-bare (add_names l (side t r)) rs)

  dns_on-bare : (d : Option Dns) → dns_on (bare_tree t) d ≡ dns_on t d
  unfolding dns_on served
  dns_on-bare none = refl
  dns_on-bare (some d) = rw (served-bare [] d.serve_to_interfaces)

  ntp_on-bare : (n : Option Ntp) → ntp_on (bare_tree t) n ≡ ntp_on t n
  unfolding ntp_on served
  ntp_on-bare none = refl
  ntp_on-bare (some n) = rw (served-bare [] n.serve_to_interfaces)

  address_values-bare :
      (refs : List String) → address_values (bare_tree t) refs ≡ address_values t refs
  unfolding address_values
  address_values-bare [] = refl
  address_values-bare (r ∷ rs) = rw (
    expand_addresses-bare t r,
    address_values-bare rs,
    map_both bare (λ a. address_value a.spec) (λ a. address_value a.spec) (expand_addresses t r)
        (unfold bare in λ x. refl),
  )

  resolve_addresses-bare :
      (refs : List String) → resolve_addresses (bare_tree t) refs ≡ resolve_addresses t refs
  unfolding resolve_addresses
  resolve_addresses-bare refs = rw (address_values-bare refs)

dhcp_on-bare : (ds : List (Object DhcpServerSpec)) → dhcp_on (map bare ds) ≡ dhcp_on ds
unfolding dhcp_on bare
dhcp_on-bare [] = refl
dhcp_on-bare (d ∷ ds) = rw (dhcp_on-bare ds)

open_services-bare :
    (s : SystemSpec) (a : List String) (b c : Option (List String)) (i : Object InterfaceSpec)
    → open_services s a b c (bare i) ≡ open_services s a b c i
unfolding open_services bare
open_services-bare s a b c i = refl

local_in-bare :
    (t : Tree) (i : Object InterfaceSpec) → local_in (bare_tree t) (bare i) ≡ local_in t i
unfolding local_in bare_tree
local_in-bare t i =
    let s = sys t in
    rw (sys-bare t, dns_on-bare t s.dns, ntp_on-bare t s.ntp, dhcp_on-bare t.dhcp_servers)
      (open_services-bare s (dhcp_on t.dhcp_servers) (dns_on t s.dns) (ntp_on t s.ntp) i)

module _ (json : List ProtocolEntry → String) (t : Tree) where
  service_texts-bare :
      (refs : List String) → service_texts json (bare_tree t) refs ≡ service_texts json t refs
  unfolding service_texts
  service_texts-bare [] = refl
  service_texts-bare (r ∷ rs) = rw (
    expand_services-bare t r,
    service_texts-bare rs,
    map_both bare (λ (s : Object ServiceSpec). json s.spec.protocols) (λ s. json s.spec.protocols)
        (expand_services t r) (unfold bare in λ x. refl),
  )

  resolve_services-bare :
      (refs : List String) → resolve_services json (bare_tree t) refs ≡ resolve_services json t refs
  unfolding resolve_services
  resolve_services-bare refs = rw (service_texts-bare refs)

  nat-bare : (n : Option Nat) → compiled_nat json (bare_tree t) n ≡ compiled_nat json t n
  unfolding compiled_nat
  nat-bare none = refl
  nat-bare (some n) = rw (
    resolve_addresses-bare t (n.translate_ip_to ∷ []),
    resolve_services-bare (n.translate_service_to ∷ []),
  )

  rule-bare : (r : Rule) → compiled_rule json (bare_tree t) (bare_rule r) ≡ compiled_rule json t r
  unfolding compiled_rule bare_rule
  rule-bare r = rw (
    nat-bare r.nat,
    resolve_addresses-bare t r.source,
    resolve_addresses-bare t r.destination,
    resolve_services-bare r.service,
  )

  rules-bare :
      (rs : List Rule)
      → compiled_rules json (bare_tree t) (map bare_rule rs) ≡ compiled_rules json t rs
  unfolding compiled_rules
  rules-bare [] = refl
  rules-bare (r ∷ rs) = rw (rule-bare r, rules-bare rs) (unfold bare_rule rule_enabled in refl)

  set-bare :
      (rs : Object RuleSetSpec)
      → compiled_set json (bare_tree t) (bare_set rs) ≡ compiled_set json t rs
  unfolding compiled_set bare_set bare
  set-bare rs = rw (side-bare t rs.spec.from, side-bare t rs.spec.to, rules-bare rs.spec.rules)

  counted-bare :
      (n : ℕ) (r : Rule) (c : Counts)
      → counted json (bare_tree t) n (bare_rule r) c ≡ counted json t n r c
  unfolding counted
  counted-bare n r c = rw (rule-bare r) (unfold bare_rule in refl)

  count_rule-bare :
      (n : ℕ) (r : Rule) (c : Counts)
      → count_rule json (bare_tree t) n (bare_rule r) c ≡ count_rule json t n r c
  unfolding count_rule bare_rule rule_enabled
  count_rule-bare n r c =
      ap (λ (x : Counts). if rule_enabled r then x else record c { disabled = c.disabled + 1 })
        (counted-bare n r c)

  count-bare :
      (n : ℕ) (rs : List Rule) (c : Counts)
      → count_rules json (bare_tree t) n (map bare_rule rs) c ≡ count_rules json t n rs c
  unfolding count_rules
  count-bare n [] c = refl
  count-bare n (r ∷ rs) c =
      ap (λ x. count_rules json (bare_tree t) n (map bare_rule rs) x) (count_rule-bare n r c)
      ∙ count-bare n rs (count_rule json t n r c)

  pairs-bare :
      (rs : Object RuleSetSpec)
      → pairs_of (side (bare_tree t) rs.spec.from) (side (bare_tree t) rs.spec.to)
        ≡ pairs_of (side t rs.spec.from) (side t rs.spec.to)
  pairs-bare rs = rw (side-bare t rs.spec.from, side-bare t rs.spec.to)

  count_set-bare :
      (rs : Object RuleSetSpec) (c : Counts)
      → count_set json (bare_tree t) (bare_set rs) c ≡ count_set json t rs c
  unfolding count_set bare_set bare
  count_set-bare rs c =
      ap
        (λ (ps : List (String × String)).
          count_rules json (bare_tree t) (length ps) (map bare_rule rs.spec.rules)
            (record c { pairs = c.pairs + length ps }))
        (pairs-bare rs)
      ∙ count-bare (length (pairs_of (side t rs.spec.from) (side t rs.spec.to))) rs.spec.rules
          (record c {
            pairs = c.pairs + length (pairs_of (side t rs.spec.from) (side t rs.spec.to));
          })

  counts-bare :
      (sets : List (Object RuleSetSpec)) (c : Counts)
      → count_sets json (bare_tree t) (map bare_set sets) c ≡ count_sets json t sets c
  unfolding count_sets
  counts-bare [] c = refl
  counts-bare (rs ∷ sets) c =
      ap (λ x. count_sets json (bare_tree t) (map bare_set sets) x) (count_set-bare rs c)
      ∙ counts-bare sets (count_set json t rs c)

  addresses-bare : interface_addresses (bare_tree t) ≡ interface_addresses t
  unfolding interface_addresses bare_tree
  addresses-bare = map_both bare _ _ t.interfaces (unfold bare in λ x. refl)

  sets-bare :
      map (compiled_set json (bare_tree t)) (bare_tree t).rule_sets
      ≡ map (compiled_set json t) t.rule_sets
  unfolding bare_tree
  sets-bare = map_both bare_set _ _ t.rule_sets set-bare

  local-bare : map (local_in (bare_tree t)) (bare_tree t).interfaces ≡ map (local_in t) t.interfaces
  unfolding bare_tree
  local-bare = map_both bare _ _ t.interfaces (local_in-bare t)

  zones-bare : map zone_traffic (bare_tree t).zones ≡ map zone_traffic t.zones
  unfolding bare_tree
  zones-bare = map_both bare _ _ t.zones (unfold bare zone_traffic in λ x. refl)

  dataplane-bare : dataplane_section json (bare_tree t) ≡ dataplane_section json t
  unfolding dataplane_section
  dataplane-bare = rw (
    sys-bare t,
    sets-bare,
    local-bare,
    zones-bare,
    addresses-bare,
    address_values-bare t (trusted_hosts (sys t).admin),
  )

  network-bare : network_section (bare_tree t) ≡ network_section t
  unfolding network_section bare_tree
  network-bare = λ i.
      network (map_both bare link_of link_of t.interfaces (unfold bare link_of in λ x. refl) i) (
        map_both bare (λ (r : Object StaticRouteSpec). r.spec)
          (λ (r : Object StaticRouteSpec). r.spec) t.static_routes (unfold bare in λ x. refl) i)

  dhcp-bare : dhcp_section (bare_tree t) ≡ dhcp_section t
  unfolding dhcp_section bare_tree
  dhcp-bare = λ i. dhcp (
      map_both bare (λ (d : Object DhcpServerSpec). d.spec) (λ (d : Object DhcpServerSpec). d.spec)
        t.dhcp_servers (unfold bare in λ x. refl) i)

  dns-bare : dns_section (bare_tree t) ≡ dns_section t
  unfolding dns_section
  dns-bare = rw (sys-bare t, dns_on-bare t (sys t).dns, ntp_on-bare t (sys t).ntp, addresses-bare)

  section-bare : (d : String) → section_of json (bare_tree t) d ≡ section_of json t d
  unfolding section_of
  section-bare d = λ i.
      if d == "network"
      then some (network-bare i)
      else if d == "dataplane"
      then some (dataplane (dataplane-bare i))
      else if d == "dhcp"
      then some (dhcp-bare i)
      else if d == "dns"
      then some (dns-bare i)
      else none

  abbrev no_counts : Counts
  no_counts = record { pairs = 0; policies = 0; disabled = 0; match_entries = 0; dnat_entries = 0 }

  counts_bare :
      count_sets json (bare_tree t) (bare_tree t).rule_sets no_counts
      ≡ count_sets json t t.rule_sets no_counts
  unfolding bare_tree
  counts_bare = counts-bare t.rule_sets no_counts

  sets_bare : length (bare_tree t).rule_sets ≡ length t.rule_sets
  unfolding bare_tree
  sets_bare = length-map bare_set t.rule_sets

  -- The Compiler sees no metadata.
  pub compile-bare :
      (hash : Section → String) → compile json hash (bare_tree t) ≡ compile json hash t
  unfolding compile
  compile-bare hash = λ i. record {
    rule_sets = sets_bare i;
    pairs = (counts_bare i).pairs;
    policies = (counts_bare i).policies;
    disabled = (counts_bare i).disabled;
    match_entries = (counts_bare i).match_entries;
    dnat_entries = (counts_bare i).dnat_entries;
    local_in = (dataplane-bare i).local_in;
    intra_zone = (dataplane-bare i).intra_zone;
    sections = λ d. hashed hash (section-bare d i);
  }

module _ {ℓ} {S : Type ℓ} (read : S → String → String ⊎ Tree × String)
    (validate : Tree → List Error) (json : List ProtocolEntry → String)
    (hash : Section → String) where
  -- When the Reconciler runs the plan of a configuration, and HEAD is valid and differs from that
  -- configuration in metadata alone, the round is a no-op without a step, after which it runs HEAD.
  pub metadata_no_op :
      (round : Round S) (rev commit old : String) (tree tree' : Tree) (r : Reconciler)
      → Runs tree old (compile json hash tree) r
      → bare_tree tree' ≡ bare_tree tree
      → read round.store rev ≡ inr (tree', commit)
      → errors (validate tree') ≡ []
      → let (a, r') = reconcile read validate (compile json hash) round rev r in
        (a.result ≡ "no-op") × (a.steps ≡ []) × Runs tree' commit (compile json hash tree') r'
  metadata_no_op round rev commit old tree tree' r runs same found valid =
      let e : compile json hash tree ≡ compile json hash tree' =
        sym (compile-bare json tree hash)
        ∙ ap (compile json hash) (sym same)
        ∙ compile-bare json tree' hash in
      reconcile-no_op read validate (compile json hash) round rev commit tree' r found valid (
        subst (λ (p : PlanSummary). All (λ d. r.applied d ≡ p.sections d) driver_names) e
          runs.sections)
