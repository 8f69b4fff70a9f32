-- ===== src/Model/Metadata.antt =====
-- PoC-webui-v2/internal/model: a configuration without its metadata, the fields comment, color, category,
-- labels and uuid of its objects and Policies. The lookups of tree.go do not see them.
pub mod Names
pub mod Expansions
use songbird_prototypes.Prelude.{[], map}
use songbird_prototypes.Model.Types.{Object, Rule, RuleSetSpec}
use songbird_prototypes.Model.Tree.{Tree}

-- An object with its name as its only metadata.
unfoldable pub bare {ℓ} : {S : Type ℓ} → Object S → Object S
bare o = record o {
  metadata = record {
    name = o.metadata.name;
    uuid = "";
    comment = "";
    color = "";
    category = "";
    labels = [];
  };
}

unfoldable pub bare_rule : Rule → Rule
bare_rule r = record r { uuid = ""; comment = "" }

unfoldable pub bare_set : Object RuleSetSpec → Object RuleSetSpec
unfolding bare bare_rule
bare_set o = record (bare o) { spec = record (o.spec) { rules = map bare_rule o.spec.rules } }

unfoldable pub bare_tree : Tree → Tree
unfolding bare bare_set
bare_tree t = record {
  system = map bare t.system;
  colors = map bare t.colors;
  interfaces = map bare t.interfaces;
  zones = map bare t.zones;
  static_routes = map bare t.static_routes;
  dhcp_servers = map bare t.dhcp_servers;
  addresses = map bare t.addresses;
  address_groups = map bare t.address_groups;
  services = map bare t.services;
  service_groups = map bare t.service_groups;
  rule_sets = map bare_set t.rule_sets;
  users = map bare t.users;
}
