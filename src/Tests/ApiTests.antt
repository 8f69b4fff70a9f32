-- ===== src/Tests/ApiTests.antt =====
-- Runs of the changes of the HTTP API, and its theorems at concrete inputs.
use songbird_prototypes.Prelude.{ℕ, String, ◌≡◌, refl, inr, true, false, none, some, [], ◌∷◌, ◌++◌}
use songbird_prototypes.Netip.{bit_len, masked, includes, less, is4, same_prefix, prefix_overlaps}
use songbird_prototypes.Predefined.{
  color_hex, palette_names, service, is_service, same_protocols, service_matches, describe,
}
use songbird_prototypes.Model.Types.{
  interface_enabled, effective_role, static_addresses, rule_enabled, is_any, preference, form,
  address_value,
}
use songbird_prototypes.Model.System.{
  https_port, session_timeout, lockout_policy, threat_feeds_on, empty_system,
}
use songbird_prototypes.Model.Objects.{put, remove, find, sort_by_name}
use songbird_prototypes.Model.Tree.{
  Tree, kind_by_name, file_path, empty_tree, kind_text, list_kind, objects, with_objects, header,
  as_object, to_doc,
}
use songbird_prototypes.Model.Edits.{delete, get_in, get, each, sort, system_of, sys}
use songbird_prototypes.Model.Walk.{walk_all, walk}
use songbird_prototypes.Model.Lookups.{
  interface_named, zone_named, address_named, address_group_named, service_named,
  service_group_named, zone_in, zone_of, side, members, expand_addresses, expand_services,
}
use songbird_prototypes.Model.Durations.{span_digits, decimal_from, atoi, parse_duration}
use songbird_prototypes.Model.Ports.{
  single, port_text, port_digits, range_end, range_start, parse_port_string, marshal, unmarshal,
}
use songbird_prototypes.Validator.Errors.{errors}
use songbird_prototypes.Validator.Intervals.{norm, overlaps, covers, size}
use songbird_prototypes.Validator.Sets.{
  addr_interval, addr_set, addr_overlaps, addr_covers, add_port, port_interval, svc_set,
  svc_overlaps, svc_covers, svc_has, protocols, port_count,
}
use songbird_prototypes.Validator.Checks.{
  return, ◌>>=◌, at, at_file, add, err, warn, when, given, for, for_from, fold, fold_from, kind_of,
  ref_to, ref_in, ref,
}
use songbird_prototypes.Validator.Names.{names, in_space, space_of, claim, register}
use songbird_prototypes.Validator.Globals.{has_admin, refer_all, system, users, colors_check}
use songbird_prototypes.Validator.Network.{
  the_interface, in_any, prefixes, vlan_key, interface_check, interfaces, join_zone, zone_member,
  zone_check, zones, route_key, route_check, routes,
}
use songbird_prototypes.Validator.Entries.{address_check, addresses, service_check, services}
use songbird_prototypes.Validator.Groups.{
  colour_of, report_cycle, by_colour, member, dfs, root, roots, group_refs, group_check, groups,
}
use songbird_prototypes.Validator.Dhcp.{
  reservation, gateway, lease_range, ordered_range, served_interface, dhcp_check, dhcp,
}
use songbird_prototypes.Validator.RuleSets.{
  the_address, the_service, member_zone, zone_members, binding_check, address_refs, is_inside,
  dnat_destination, single_host_or_range, nat_target, target_check, only_port, translated_service,
  dnat_check, nat_check,
}
use songbird_prototypes.Validator.RuleSets.Overlaps.{
  first_shadow, shadowed, management_port, shared_in, collide, pair_check, overlaps_after,
  dnat_overlaps,
}
use songbird_prototypes.Validator.RuleSets.Policies.{
  dnat_rule, collect, policy, rule_set, limit_check, rule_sets,
}
use songbird_prototypes.Validator.Run.{
  env_of, errors_first, with_line, structural, semantic, checks, validate_with, validate,
}
use songbird_prototypes.Model.Types.{Object, ZoneSpec}
use songbird_prototypes.Model.Tree.{Tree, Doc, zone_doc}
use songbird_prototypes.Model.Uuids.{assign_uuids, doc_with_uuid, keep_uuid}
use songbird_prototypes.Configstore.{
  read, update, conflict_of, conflict_in, touched_file, write, commit, send, notify, load,
}
use songbird_prototypes.Api.{
  Edited, mutation, guard, protected, new_errors, is_old, key, warnings_for, changes_of,
}
use songbird_prototypes.Api.Accepted.{IsAccepted, mutation-IsAccepted}
use songbird_prototypes.Api.Import.{Imported, import_tree, imported, gone, stores}
use songbird_prototypes.Api.Import.Sound.{IsSound, import_tree-IsSound}
use songbird_prototypes.Validator.Load.{relocate}
use songbird_prototypes.Api.Saved.{Saved, closure, update-Saved}
use songbird_prototypes.Tests.Samples.{named, zone}
use songbird_prototypes.Tests.ValidatorTests.{texts, shipped, no_issues, first_line, office}
use songbird_prototypes.Tests.StoreTests.{git, stored, ann}

abbrev new_uuid : ℕ → String
new_uuid n = "uuid"

abbrev type_text : Doc → String
type_text o = "model.Object"

abbrev lan : Object ZoneSpec
lan = zone "lan" []

abbrev lan_with_uuid : Object ZoneSpec
lan_with_uuid = record lan { metadata = record (named "lan") { uuid = "uuid" } }

abbrev added : Edited
added = record {
  tree = record office { zones = lan_with_uuid ∷ [] };
  change = record { kind = "Zone"; name = "lan"; obj = some (zone_doc lan_with_uuid) };
  before = none;
  after = some (zone_doc lan_with_uuid);
  warnings = [];
}

-- A new Zone of an office that has none.
accepted :
    (mutation texts shipped no_issues first_line new_uuid type_text "Zone" "lan"
      (some (zone_doc lan))
      true
      office
      0).0
    ≡ inr added
unfolding songbird_prototypes.Model.Edits.put mutation guard protected new_errors is_old key
    warnings_for assign_uuids doc_with_uuid keep_uuid bit_len masked includes less is4 same_prefix
    prefix_overlaps color_hex palette_names service is_service same_protocols service_matches
    describe interface_enabled effective_role static_addresses rule_enabled is_any preference form
    address_value https_port session_timeout lockout_policy threat_feeds_on empty_system put remove
    find names sort_by_name kind_by_name file_path empty_tree kind_text list_kind objects
    with_objects header as_object to_doc delete get_in get each sort system_of sys walk_all walk
    interface_named zone_named address_named address_group_named service_named service_group_named
    zone_in zone_of side members expand_addresses expand_services span_digits decimal_from atoi
    parse_duration single port_text port_digits range_end range_start parse_port_string marshal
    unmarshal errors norm overlaps covers size addr_interval addr_set addr_overlaps addr_covers
    add_port port_interval svc_set svc_overlaps svc_covers svc_has protocols port_count return ◌>>=◌
    at at_file add err warn when given for for_from fold fold_from kind_of ref_to ref_in ref
    in_space space_of claim register has_admin refer_all system users colors_check the_interface
    in_any prefixes vlan_key interface_check interfaces join_zone zone_member zone_check zones
    route_key route_check routes address_check addresses service_check services colour_of
    report_cycle by_colour member dfs root roots group_refs group_check groups reservation gateway
    lease_range ordered_range served_interface dhcp_check dhcp the_address the_service member_zone
    zone_members binding_check address_refs is_inside dnat_destination single_host_or_range
    nat_target target_check only_port translated_service dnat_check nat_check first_shadow shadowed
    management_port shared_in collide pair_check overlaps_after dnat_overlaps dnat_rule collect
    policy rule_set limit_check rule_sets env_of errors_first with_line structural semantic checks
    validate_with validate
accepted = refl

mutation-IsAccepted_example :
    IsAccepted texts shipped no_issues first_line new_uuid "Zone" "lan"
      (some (zone_doc lan))
      true
      office
      0
      added
mutation-IsAccepted_example =
    mutation-IsAccepted texts shipped no_issues first_line new_uuid type_text "Zone" "lan"
      (some (zone_doc lan)) true office 0 added accepted

saved :
    (update git "c1" ann "create Zone/lan"
      (closure git texts shipped no_issues first_line new_uuid type_text "Zone" "lan"
        (some (zone_doc lan))
        true
        0)
      (stored false)).0
    ≡ inr "next"
unfolding update read conflict_of conflict_in touched_file write commit send notify load closure
    changes_of songbird_prototypes.Model.Edits.put mutation guard protected new_errors is_old key
    warnings_for assign_uuids doc_with_uuid keep_uuid bit_len masked includes less is4 same_prefix
    prefix_overlaps color_hex palette_names service is_service same_protocols service_matches
    describe interface_enabled effective_role static_addresses rule_enabled is_any preference form
    address_value https_port session_timeout lockout_policy threat_feeds_on empty_system put remove
    find names sort_by_name kind_by_name file_path empty_tree kind_text list_kind objects
    with_objects header as_object to_doc delete get_in get each sort system_of sys walk_all walk
    interface_named zone_named address_named address_group_named service_named service_group_named
    zone_in zone_of side members expand_addresses expand_services span_digits decimal_from atoi
    parse_duration single port_text port_digits range_end range_start parse_port_string marshal
    unmarshal errors norm overlaps covers size addr_interval addr_set addr_overlaps addr_covers
    add_port port_interval svc_set svc_overlaps svc_covers svc_has protocols port_count return ◌>>=◌
    at at_file add err warn when given for for_from fold fold_from kind_of ref_to ref_in ref
    in_space space_of claim register has_admin refer_all system users colors_check the_interface
    in_any prefixes vlan_key interface_check interfaces join_zone zone_member zone_check zones
    route_key route_check routes address_check addresses service_check services colour_of
    report_cycle by_colour member dfs root roots group_refs group_check groups reservation gateway
    lease_range ordered_range served_interface dhcp_check dhcp the_address the_service member_zone
    zone_members binding_check address_refs is_inside dnat_destination single_host_or_range
    nat_target target_check only_port translated_service dnat_check nat_check first_shadow shadowed
    management_port shared_in collide pair_check overlaps_after dnat_overlaps dnat_rule collect
    policy rule_set limit_check rule_sets env_of errors_first with_line structural semantic checks
    validate_with validate
saved = refl

update-Saved_example :
    Saved git texts shipped no_issues first_line new_uuid type_text "c1" ann "create Zone/lan"
      "Zone" "lan"
      (some (zone_doc lan))
      true
      0
      (stored false)
      (update git "c1" ann "create Zone/lan"
        (closure git texts shipped no_issues first_line new_uuid type_text "Zone" "lan"
          (some (zone_doc lan))
          true
          0)
        (stored false)).1
      "next"
update-Saved_example =
    update-Saved git texts shipped no_issues first_line new_uuid type_text "c1" ann
      "create Zone/lan" "Zone" "lan" (some (zone_doc lan)) true 0 (stored false) "next" saved

-- An import without Users takes those of HEAD.
abbrev new_office : Tree
new_office = record office { zones = lan ∷ []; users = [] }

abbrev result : Imported
result =
    let t : Tree = record office { zones = lan ∷ [] } in
    record {
      tree = t;
      changes = gone t (each office) ++ stores new_uuid office (each t) 0;
      warnings = [];
    }

import_accepted :
    import_tree texts shipped no_issues first_line new_uuid new_office [] office 0 ≡ inr result
unfolding import_tree imported stores gone relocate assign_uuids doc_with_uuid keep_uuid bit_len
    masked includes less is4 same_prefix prefix_overlaps color_hex palette_names service is_service
    same_protocols service_matches describe interface_enabled effective_role static_addresses
    rule_enabled is_any preference form address_value https_port session_timeout lockout_policy
    threat_feeds_on empty_system put remove find names sort_by_name kind_by_name file_path
    empty_tree kind_text list_kind objects with_objects header as_object to_doc delete get_in get
    each sort system_of sys walk_all walk interface_named zone_named address_named
    address_group_named service_named service_group_named zone_in zone_of side members
    expand_addresses expand_services span_digits decimal_from atoi parse_duration single port_text
    port_digits range_end range_start parse_port_string marshal unmarshal errors norm overlaps
    covers size addr_interval addr_set addr_overlaps addr_covers add_port port_interval svc_set
    svc_overlaps svc_covers svc_has protocols port_count return ◌>>=◌ at at_file add err warn when
    given for for_from fold fold_from kind_of ref_to ref_in ref in_space space_of claim register
    has_admin refer_all system users colors_check the_interface in_any prefixes vlan_key
    interface_check interfaces join_zone zone_member zone_check zones route_key route_check routes
    address_check addresses service_check services colour_of report_cycle by_colour member dfs root
    roots group_refs group_check groups reservation gateway lease_range ordered_range
    served_interface dhcp_check dhcp the_address the_service member_zone zone_members binding_check
    address_refs is_inside dnat_destination single_host_or_range nat_target target_check only_port
    translated_service dnat_check nat_check first_shadow shadowed management_port shared_in collide
    pair_check overlaps_after dnat_overlaps dnat_rule collect policy rule_set limit_check rule_sets
    env_of errors_first with_line structural semantic checks validate_with validate
import_accepted = refl

import_tree-IsSound_example : IsSound texts shipped no_issues first_line office new_office result
import_tree-IsSound_example =
    import_tree-IsSound texts shipped no_issues first_line new_uuid new_office office [] 0 result
      import_accepted
