-- ===== src/Tests/Samples.antt =====
-- A small configuration: two Zones' Interfaces, Addresses, and Address Groups with a cycle.
use songbird_prototypes.Prelude.{String, none, List, [], ◌∷◌}
use songbird_prototypes.Model.Types.{Meta, Object, ZoneSpec, AddressSpec, GroupSpec}
use songbird_prototypes.Model.Tree.{Tree}

abbrev pub named : String → Meta
named n = record { name = n; uuid = ""; comment = ""; color = ""; category = ""; labels = [] }

abbrev pub object {ℓ} : {S : Type ℓ} → String → String → S → Object S
object k n s = record {
  api_version = "config.songbird-fw.com/v1alpha1";
  kind = k;
  metadata = named n;
  spec = s;
}

abbrev pub subnet_address : String → String → Object AddressSpec
subnet_address n s =
    object "Address" n (record { interface = ""; subnet = s; range = none; fqdn = ""; mac = "" })

abbrev pub address_group : String → List String → Object GroupSpec
address_group n ms = object "AddressGroup" n (record { members = ms })

abbrev pub zone : String → List String → Object ZoneSpec
zone n is = object "Zone" n (record { interfaces = is; intra_zone_traffic = "" })

abbrev pub web : Object AddressSpec
web = subnet_address "web" "10.0.0.10/32"

abbrev pub mail : Object AddressSpec
mail = subnet_address "mail" "10.0.0.25/32"

abbrev pub dns : Object AddressSpec
dns = subnet_address "dns" "10.0.0.53/32"

-- `servers` and `all` contain each other.
abbrev pub sample : Tree
sample = record {
  system = [];
  colors = [];
  interfaces = [];
  zones = zone "lan" ("eth1" ∷ "eth2" ∷ []) ∷ zone "wan" ("eth0" ∷ []) ∷ [];
  static_routes = [];
  dhcp_servers = [];
  addresses = web ∷ mail ∷ [];
  address_groups =
      address_group "all" ("web" ∷ "servers" ∷ [])
      ∷ address_group "servers" ("all" ∷ "mail" ∷ [])
      ∷ [];
  services = [];
  service_groups = [];
  rule_sets = [];
  users = [];
}

abbrev pub sample_with_dns : Tree
sample_with_dns = record sample { addresses = web ∷ mail ∷ dns ∷ [] }
