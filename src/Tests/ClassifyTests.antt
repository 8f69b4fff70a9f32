-- ===== src/Tests/ClassifyTests.antt =====
-- Runs of classify.go: two Interfaces, and a RuleSet that lets everything out but mail.
use songbird_prototypes.Prelude.{
  ℕ, String, ◌≡◌, refl, ◌⊎◌, false, none, some, List, [], ◌∷◌, ◌==◌, if◌then◌else◌,
}
use songbird_prototypes.Model.Types.{
  Object, InterfaceSpec, Rule, ServiceSpec, interface_enabled, static_addresses, is_any,
  rule_enabled,
}
use songbird_prototypes.Model.Tree.{Tree}
use songbird_prototypes.Model.Objects.{find}
use songbird_prototypes.Model.Lookups.{
  side, zone_named, interface_named, service_named, expand_services, members,
}
use songbird_prototypes.Model.Walk.{walk, walk_all}
use songbird_prototypes.Model.Walk.Reaches.{closure}
use songbird_prototypes.Netip.{Addr, Texts, includes, masked, bit_len}
use songbird_prototypes.Events.Routes.{
  route, statics, connected, consider, consider_addresses, matching,
}
use songbird_prototypes.Events.Classify.{
  Flow, classify, dnat_sets, dnat_rules, dnat_rule, matches, in_addresses, in_services, governing,
  governing_in, forward, first_match, snat, port_in,
}
use songbird_prototypes.Events.Routes.Choice.{Candidate, IsBest}
use songbird_prototypes.Events.Routes.Longest.{candidates, route-IsBest}
use songbird_prototypes.Events.Classify.Accepted.{ByPolicy, ByDnat, ByZone, classify-IsPermitted}
use songbird_prototypes.Tests.Samples.{object, sample}

abbrev v4 : ℕ → Addr
v4 n = record { is6 = false; value = n; zone = "" }

-- The two prefixes of the Interfaces; every other text is no address.
abbrev texts : Texts
texts = record {
  parse_addr = λ s. none;
  parse_prefix = λ s.
      if s == "10.0.1.1/24"
      then some (record { addr = v4 167772417; bits = 24 })
      else if s == "192.0.2.1/24"
      then some (record { addr = v4 3221225985; bits = 24 })
      else none;
  text = λ a. "";
}

abbrev interface : String → String → Object InterfaceSpec
interface n a = object "Interface" n (record {
  type = "physical";
  device = n;
  parent = "";
  vlan_id = 0;
  enabled = none;
  mtu = 1500;
  role = "";
  allow_access = [];
  ipv4 = some (record { mode = "static"; addresses = a ∷ []; gateway = "" });
  ipv6 = none;
})

abbrev rule : String → List String → String → Rule
rule n services action = record {
  name = n;
  uuid = "";
  comment = "";
  enabled = none;
  source = "any" ∷ [];
  destination = "any" ∷ [];
  service = services;
  action = action;
  log = "";
  nat = none;
  schedule = "";
}

abbrev smtp : Object ServiceSpec
smtp = object "Service" "smtp" (record {
  protocols =
      record {
        protocol = "tcp";
        port = some (record { lo = 25; hi = 25 });
        source_port = none;
        icmp_type = none;
        icmp_code = none;
        protocol_number = none;
      }
      ∷ [];
})

abbrev two_networks : Tree
two_networks = record sample {
  interfaces = interface "eth1" "10.0.1.1/24" ∷ interface "eth0" "192.0.2.1/24" ∷ [];
  zones = [];
  services = smtp ∷ [];
  rule_sets =
      object "RuleSet" "out" (record {
        from = "eth1";
        to = "eth0";
        rules = rule "no-mail" ("smtp" ∷ []) "drop" ∷ rule "web" ("any" ∷ []) "accept" ∷ [];
      })
      ∷ [];
}

abbrev to_port : ℕ → Flow
to_port n = record {
  in_if = "eth1";
  src = v4 167772426;
  dst = v4 3221226036;
  proto = "tcp";
  dport = n;
}

web_accepted : (classify texts two_networks (to_port 443)).action ≡ "accept"
unfolding classify dnat_sets dnat_rules dnat_rule matches in_addresses in_services governing
    governing_in forward first_match snat port_in route statics connected consider
    consider_addresses matching includes masked bit_len find side zone_named interface_named
    service_named expand_services members walk walk_all closure interface_enabled static_addresses
    is_any rule_enabled
web_accepted = refl

mail_dropped : (classify texts two_networks (to_port 25)).action ≡ "drop"
unfolding classify dnat_sets dnat_rules dnat_rule matches in_addresses in_services governing
    governing_in forward first_match snat port_in route statics connected consider
    consider_addresses matching includes masked bit_len find side zone_named interface_named
    service_named expand_services members walk walk_all closure interface_enabled static_addresses
    is_any rule_enabled
mail_dropped = refl

classify-IsPermitted_example :
    ByPolicy texts two_networks (to_port 443) (classify texts two_networks (to_port 443))
    ⊎ ByDnat texts two_networks (to_port 443) (classify texts two_networks (to_port 443))
    ⊎ ByZone texts two_networks (to_port 443) (classify texts two_networks (to_port 443))
classify-IsPermitted_example = classify-IsPermitted texts two_networks (to_port 443) web_accepted

route-IsBest_example :
    ((candidates texts (v4 3221226036) two_networks ≡ [])
      × (route texts (v4 3221226036) two_networks ≡ ""))
    ⊎ ((c : Candidate) × IsBest c (candidates texts (v4 3221226036) two_networks)
        × (route texts (v4 3221226036) two_networks ≡ c.interface))
route-IsBest_example = route-IsBest texts (v4 3221226036) two_networks
