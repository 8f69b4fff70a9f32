-- ===== src/Tests/ValidatorTests.antt =====
-- Runs of the Validator on a small office: two Zones, groups without a cycle and two dnat Policies.
use songbird_prototypes.Prelude.{
  ℕ, String, ◌≡◌, refl, ap, false, none, some, List, [], ◌∷◌, map, arith, ◌==◌, if◌then◌else◌,
}
use songbird_prototypes.Netip.{bit_len, masked, includes, less, is4, same_prefix, prefix_overlaps}
use songbird_prototypes.Predefined.{
  color_hex, palette_names, service, is_service, same_protocols, service_matches, describe,
}
use songbird_prototypes.Model.Types.{
  GroupSpec, interface_enabled, effective_role, static_addresses, rule_enabled, is_any, preference,
  form, address_value,
}
use songbird_prototypes.Model.System.{
  https_port, session_timeout, lockout_policy, threat_feeds_on, empty_system,
}
use songbird_prototypes.Model.Objects.{put, remove, find, sort_by_name}
use songbird_prototypes.Model.Tree.{
  kind_by_name, file_path, empty_tree, kind_text, list_kind, objects, with_objects, header,
  as_object, to_doc,
}
use songbird_prototypes.Model.Edits.{delete, get_in, get, each, sort, system_of, sys}
use songbird_prototypes.Model.Walk.{walk_all, walk}
use songbird_prototypes.Model.Lookups.{
  interface_named, zone_named, address_named, address_group_named, service_named,
  service_group_named, zone_in, zone_of, side, members, expand_addresses, expand_services,
}
use songbird_prototypes.Model.Durations.{span_digits, decimal_from, atoi, parse_duration}
use songbird_prototypes.Model.Ports.{
  single, port_text, port_digits, range_end, range_start, parse_port_string, marshal, unmarshal,
}
use songbird_prototypes.Validator.Errors.{errors}
use songbird_prototypes.Validator.Intervals.{norm, overlaps, covers, size}
use songbird_prototypes.Validator.Sets.{
  addr_interval, addr_set, addr_overlaps, addr_covers, add_port, port_interval, svc_set,
  svc_overlaps, svc_covers, svc_has, protocols, port_count,
}
use songbird_prototypes.Validator.Checks.{
  return, ◌>>=◌, at, at_file, add, err, warn, when, given, for, for_from, fold, fold_from, kind_of,
  ref_to, ref_in, ref,
}
use songbird_prototypes.Validator.Names.{names, in_space, space_of, claim, register}
use songbird_prototypes.Validator.Globals.{has_admin, refer_all, system, users, colors_check}
use songbird_prototypes.Validator.Network.{
  the_interface, in_any, prefixes, vlan_key, interface_check, interfaces, join_zone, zone_member,
  zone_check, zones, route_key, route_check, routes,
}
use songbird_prototypes.Validator.Entries.{address_check, addresses, service_check, services}
use songbird_prototypes.Validator.Groups.{
  colour_of, report_cycle, by_colour, member, dfs, root, roots, group_refs, group_check, groups,
}
use songbird_prototypes.Validator.Dhcp.{
  reservation, gateway, lease_range, ordered_range, served_interface, dhcp_check, dhcp,
}
use songbird_prototypes.Validator.RuleSets.{
  the_address, the_service, member_zone, zone_members, binding_check, address_refs, is_inside,
  dnat_destination, single_host_or_range, nat_target, target_check, only_port, translated_service,
  dnat_check, nat_check,
}
use songbird_prototypes.Validator.RuleSets.Overlaps.{
  first_shadow, shadowed, management_port, shared_in, collide, pair_check, overlaps_after,
  dnat_overlaps,
}
use songbird_prototypes.Validator.RuleSets.Policies.{
  dnat_rule, collect, policy, rule_set, limit_check, rule_sets,
}
use songbird_prototypes.Validator.Run.{
  env_of, errors_first, with_line, structural, semantic, checks, validate_with, validate,
}
use songbird_prototypes.Model.Types.{Object, InterfaceSpec, Rule, ServiceSpec, UserSpec}
use songbird_prototypes.Model.Tree.{Tree, Doc}
use songbird_prototypes.Netip.{Texts, Addr}
use songbird_prototypes.Predefined.{Shipped}
use songbird_prototypes.Validator.Run.{Issue}
use songbird_prototypes.Validator.Errors.{Error}
use songbird_prototypes.Validator.Names.Unique.{NamesAreUnique}
use songbird_prototypes.Validator.Groups.Acyclic.{IsAcyclic, group_graph}
use songbird_prototypes.Validator.Groups.Fuel.{roots_fuel}
use songbird_prototypes.Validator.Checks.{Place}
use songbird_prototypes.Validator.RuleSets.Disjoint.{AreDisjointAfter}
use songbird_prototypes.Validator.RuleSets.Collected.{dnat_policies}
use songbird_prototypes.Validator.Run.Verdicts.{
  validate-NamesAreUnique, validate-zone_of, validate-IsAcyclic, validate-AreDisjoint,
}
use songbird_prototypes.Tests.Samples.{object, zone, subnet_address, address_group}
use mathlib.Core.List.{Memᴰ}

abbrev host : ℕ → Addr
host n = record { is6 = false; value = n; zone = "" }

-- The texts of the addresses below.
abbrev pub texts : Texts
texts = record {
  parse_addr = λ s. none;
  parse_prefix = λ s.
      if s == "10.0.0.10/32"
      then some (record { addr = host 167772170; bits = 32 })
      else if s == "10.0.0.25/32"
      then some (record { addr = host 167772185; bits = 32 })
      else if s == "192.0.2.1/32"
      then some (record { addr = host 3221225985; bits = 32 })
      else none;
  text = λ a. "";
}

abbrev pub shipped : Shipped
shipped = record { palette = []; services = [] }

abbrev pub no_issues : Doc → List Issue
no_issues o = []

abbrev pub first_line : Doc → String → ℕ
first_line o path = 1

abbrev link : String → Object InterfaceSpec
link n = object "Interface" n (record {
  type = "physical";
  device = n;
  parent = "";
  vlan_id = 0;
  enabled = none;
  mtu = 1500;
  role = "";
  allow_access = [];
  ipv4 = none;
  ipv6 = none;
})

abbrev tcp : String → ℕ → Object ServiceSpec
tcp n p = object "Service" n (record {
  protocols =
      record {
        protocol = "tcp";
        port = some (record { lo = p; hi = p });
        source_port = none;
        icmp_type = none;
        icmp_code = none;
        protocol_number = none;
      }
      ∷ [];
})

abbrev forward_to : String → String → String → Rule
forward_to n service target = record {
  name = n;
  uuid = "";
  comment = "";
  enabled = none;
  source = "any" ∷ [];
  destination = "public" ∷ [];
  service = service ∷ [];
  action = "allow";
  log = "";
  nat = some (record { type = "dnat"; translate_ip_to = target; translate_service_to = "" });
  schedule = "";
}

abbrev user : String → String → Object UserSpec
user n role = object "User" n (record { role = role; password_hash = "hash" })

-- A configuration with one System and one User.
abbrev pub office : Tree
office = record empty_tree {
  system = object "System" "system" empty_system ∷ [];
  users = user "ann" "admin" ∷ [];
}

-- Two Zones of one Interface each.
abbrev pub zoned : Tree
zoned = record empty_tree {
  interfaces = link "eth0" ∷ link "eth1" ∷ [];
  zones = zone "lan" ("eth1" ∷ []) ∷ zone "wan" ("eth0" ∷ []) ∷ [];
}

-- Groups without a cycle.
abbrev pub grouped : Tree
grouped = record empty_tree {
  addresses = subnet_address "web" "10.0.0.10/32" ∷ [];
  address_groups = address_group "all" ("servers" ∷ []) ∷ address_group "servers" ("web" ∷ []) ∷ [];
}

-- Two dnat Policies, for the two Services of one host.
abbrev pub forwarding : Tree
forwarding = record empty_tree {
  interfaces = link "eth0" ∷ link "eth1" ∷ [];
  addresses = subnet_address "web" "10.0.0.10/32" ∷ subnet_address "public" "192.0.2.1/32" ∷ [];
  services = tcp "http" 80 ∷ tcp "smtp" 25 ∷ [];
  rule_sets =
      object "RuleSet" "inbound" (record {
        from = "eth0";
        to = "eth1";
        rules = forward_to "to_web" "http" "web" ∷ forward_to "to_mail" "smtp" "web" ∷ [];
      })
      ∷ [];
}

-- None of them has a finding.
pub valid :
    (validate texts shipped no_issues first_line office ≡ [])
    × (validate_with texts shipped no_issues first_line zoned false ≡ [])
    × (validate_with texts shipped no_issues first_line grouped false ≡ [])
    × (validate_with texts shipped no_issues first_line forwarding false ≡ [])
unfolding names bit_len masked includes less is4 same_prefix prefix_overlaps color_hex palette_names
    service is_service same_protocols service_matches describe interface_enabled effective_role
    static_addresses rule_enabled is_any preference form address_value https_port session_timeout
    lockout_policy threat_feeds_on empty_system put remove find sort_by_name kind_by_name file_path
    empty_tree kind_text list_kind objects with_objects header as_object to_doc delete get_in get
    each sort system_of sys walk_all walk interface_named zone_named address_named
    address_group_named service_named service_group_named zone_in zone_of side members
    expand_addresses expand_services span_digits decimal_from atoi parse_duration single port_text
    port_digits range_end range_start parse_port_string marshal unmarshal errors norm overlaps
    covers size addr_interval addr_set addr_overlaps addr_covers add_port port_interval svc_set
    svc_overlaps svc_covers svc_has protocols port_count return ◌>>=◌ at at_file add err warn when
    given for for_from fold fold_from kind_of ref_to ref_in ref in_space space_of claim register
    has_admin refer_all system users colors_check the_interface in_any prefixes vlan_key
    interface_check interfaces join_zone zone_member zone_check zones route_key route_check routes
    address_check addresses service_check services colour_of report_cycle by_colour member dfs root
    roots group_refs group_check groups reservation gateway lease_range ordered_range
    served_interface dhcp_check dhcp the_address the_service member_zone zone_members binding_check
    address_refs is_inside dnat_destination single_host_or_range nat_target target_check only_port
    translated_service dnat_check nat_check first_shadow shadowed management_port shared_in collide
    pair_check overlaps_after dnat_overlaps dnat_rule collect policy rule_set limit_check rule_sets
    env_of errors_first with_line structural semantic checks validate_with validate
valid = (refl, refl, refl, refl)

no_errors : (l : List Error) → l ≡ [] → errors l ≡ []
unfolding errors
no_errors l h = ap errors h

validate-NamesAreUnique_example : NamesAreUnique (each zoned)
validate-NamesAreUnique_example =
    validate-NamesAreUnique texts shipped no_issues first_line zoned false (no_errors _ valid.1)

validate-zone_of_example : zone_of zoned "eth0" ≡ "wan"
validate-zone_of_example =
    validate-zone_of texts shipped no_issues first_line zoned false (zone "wan" ("eth0" ∷ []))
      "eth0" (no_errors _ valid.1) (Memᴰ.tail (Memᴰ.head refl)) refl

validate-IsAcyclic_example : IsAcyclic grouped.address_groups × IsAcyclic grouped.service_groups
validate-IsAcyclic_example =
    validate-IsAcyclic texts shipped no_issues first_line grouped false (no_errors _ valid.2)

validate-AreDisjoint_example :
    AreDisjointAfter [] (dnat_policies texts forwarding forwarding.rule_sets)
validate-AreDisjoint_example =
    validate-AreDisjoint texts shipped no_issues first_line forwarding false (no_errors _ valid.3)

abbrev outset : Place
outset = record { cur = none; file = "" }

-- Two groups that contain each other.
abbrev circular : List (Object GroupSpec)
circular = address_group "all" ("servers" ∷ []) ∷ address_group "servers" ("all" ∷ []) ∷ []

cycle_test :
    map (λ l. l.error.reason) (roots [] "R-013" (group_graph circular) 3 circular [] outset).found
    ≡ "cycle: all -> servers -> all" ∷ []
unfolding roots root dfs member by_colour report_cycle group_graph colour_of fold given err add at
    return ◌>>=◌
cycle_test = refl

roots_fuel_example :
    roots [] "R-013" (group_graph circular) 9 circular [] outset
    ≡ roots [] "R-013" (group_graph circular) 3 circular [] outset
roots_fuel_example = roots_fuel [] "R-013" circular 9 outset (omega arith)
