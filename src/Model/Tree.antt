-- ===== src/Model/Tree.antt =====
-- PoC-webui-v2/internal/model/tree.go: the kinds, and the tree that holds a list for each kind.
-- The result of `t.list(kind)` is a pointer to one of twelve lists: here a kind, with the list that
-- it selects read by `objects` and written by `with_objects`.
use songbird_prototypes.Prelude.{
  String, ◌≡◌, Bool, true, false, Option, none, some, List, [], ◌∷◌, arith, ◌==◌, eq_iff,
  if◌then◌else◌, concat,
}
use songbird_prototypes.Model.Types.{
  Meta, Object, ColorSpec, InterfaceSpec, ZoneSpec, StaticRouteSpec, DhcpServerSpec, AddressSpec,
  GroupSpec, ServiceSpec, RuleSetSpec, UserSpec,
}
use songbird_prototypes.Model.System.{SystemSpec}

pub data KindName : Type 0 where
  system color interface zone static_route dhcp_server address address_group service service_group
        rule_set user :
      KindName

pub record Kind : Type 0 where
  pub name : String
  pub dir : String
  pub namespace : String
  pub extension : Bool

abbrev row : String → String → String → Bool → Kind
row n d ns e = record { name = n; dir = d; namespace = ns; extension = e }

-- The table `Kinds`, in dependency order.
abbrev pub kinds : List Kind
kinds =
    row "System" "system" "system" false
    ∷ row "Color" "objects/colors" "color" false
    ∷ row "Interface" "network/interfaces" "network" false
    ∷ row "Zone" "network/zones" "network" false
    ∷ row "StaticRoute" "network/routes" "route" true
    ∷ row "DhcpServer" "network/dhcp" "dhcp" true
    ∷ row "Address" "objects/addresses" "address" false
    ∷ row "AddressGroup" "objects/addressgroups" "address" false
    ∷ row "Service" "objects/services" "service" false
    ∷ row "ServiceGroup" "objects/servicegroups" "service" false
    ∷ row "RuleSet" "firewall/rulesets" "ruleset" false
    ∷ row "User" "users" "user" true
    ∷ []

-- The same order, by the kinds that `list` knows.
abbrev pub kind_names : List KindName
kind_names =
    system ∷ color ∷ interface ∷ zone ∷ static_route ∷ dhcp_server ∷ address ∷ address_group
    ∷ service ∷ service_group ∷ rule_set ∷ user ∷ []

kind_in : String → List Kind → Option Kind
kind_in n [] = none
kind_in n (k ∷ ks) = if k.name == n then some k else kind_in n ks

unfoldable pub kind_by_name : String → Option Kind
unfolding kind_in
kind_by_name n = kind_in n kinds

path_in : Option Kind → String → String → String
path_in none kind name = concat (kind ∷ "/" ∷ name ∷ ".yaml" ∷ [])
path_in (some k) kind name = concat (k.dir ∷ "/" ∷ name ∷ ".yaml" ∷ [])

-- The path of an object in the repository.
unfoldable pub file_path : String → String → String
unfolding path_in kind_by_name
file_path kind name = path_in (kind_by_name kind) kind name

pub record Tree : Type 0 where
  pub system : List (Object SystemSpec)
  pub colors : List (Object ColorSpec)
  pub interfaces : List (Object InterfaceSpec)
  pub zones : List (Object ZoneSpec)
  pub static_routes : List (Object StaticRouteSpec)
  pub dhcp_servers : List (Object DhcpServerSpec)
  pub addresses : List (Object AddressSpec)
  pub address_groups : List (Object GroupSpec)
  pub services : List (Object ServiceSpec)
  pub service_groups : List (Object GroupSpec)
  pub rule_sets : List (Object RuleSetSpec)
  pub users : List (Object UserSpec)

unfoldable pub empty_tree : Tree
empty_tree = record {
  system = [];
  colors = [];
  interfaces = [];
  zones = [];
  static_routes = [];
  dhcp_servers = [];
  addresses = [];
  address_groups = [];
  services = [];
  service_groups = [];
  rule_sets = [];
  users = [];
}

-- The case labels of the switch in `list`.
unfoldable pub kind_text : KindName → String
kind_text system = "System"
kind_text color = "Color"
kind_text interface = "Interface"
kind_text zone = "Zone"
kind_text static_route = "StaticRoute"
kind_text dhcp_server = "DhcpServer"
kind_text address = "Address"
kind_text address_group = "AddressGroup"
kind_text service = "Service"
kind_text service_group = "ServiceGroup"
kind_text rule_set = "RuleSet"
kind_text user = "User"

first_kind : String → List KindName → Option KindName
first_kind s [] = none
first_kind s (k ∷ ks) = if s == kind_text k then some k else first_kind s ks

-- The switch of `list`, case by case; an unknown kind selects no list.
unfoldable pub list_kind : String → Option KindName
unfolding first_kind kind_text
list_kind s = first_kind s kind_names

first_kind-eq_some :
    (s : String) (ks : List KindName) (k : KindName) → first_kind s ks ≡ some k → s ≡ kind_text k
unfolding first_kind
first_kind-eq_some s [] k h = cc
first_kind-eq_some s (j ∷ ks) k h =
    ground (arith, eq_iff s (kind_text j), first_kind-eq_some s ks k)

pub list_kind-eq_some : (s : String) (k : KindName) → list_kind s ≡ some k → s ≡ kind_text k
unfolding list_kind
list_kind-eq_some s k h = first_kind-eq_some s kind_names k h

abbrev pub SpecOf : KindName → Type 0
SpecOf system = SystemSpec
SpecOf color = ColorSpec
SpecOf interface = InterfaceSpec
SpecOf zone = ZoneSpec
SpecOf static_route = StaticRouteSpec
SpecOf dhcp_server = DhcpServerSpec
SpecOf address = AddressSpec
SpecOf address_group = GroupSpec
SpecOf service = ServiceSpec
SpecOf service_group = GroupSpec
SpecOf rule_set = RuleSetSpec
SpecOf user = UserSpec

unfoldable pub objects : (k : KindName) → Tree → List (Object (SpecOf k))
objects system t = t.system
objects color t = t.colors
objects interface t = t.interfaces
objects zone t = t.zones
objects static_route t = t.static_routes
objects dhcp_server t = t.dhcp_servers
objects address t = t.addresses
objects address_group t = t.address_groups
objects service t = t.services
objects service_group t = t.service_groups
objects rule_set t = t.rule_sets
objects user t = t.users

unfoldable pub with_objects : (k : KindName) → List (Object (SpecOf k)) → Tree → Tree
with_objects system l t = record t { system = l }
with_objects color l t = record t { colors = l }
with_objects interface l t = record t { interfaces = l }
with_objects zone l t = record t { zones = l }
with_objects static_route l t = record t { static_routes = l }
with_objects dhcp_server l t = record t { dhcp_servers = l }
with_objects address l t = record t { addresses = l }
with_objects address_group l t = record t { address_groups = l }
with_objects service l t = record t { services = l }
with_objects service_group l t = record t { service_groups = l }
with_objects rule_set l t = record t { rule_sets = l }
with_objects user l t = record t { users = l }

-- A value of the interface `Doc`: an object of one of the eleven Go types. `AddressGroup` and
-- `ServiceGroup` are one type.
pub data Doc : Type 0 where
  system_doc : Object SystemSpec → Doc
  color_doc : Object ColorSpec → Doc
  interface_doc : Object InterfaceSpec → Doc
  zone_doc : Object ZoneSpec → Doc
  static_route_doc : Object StaticRouteSpec → Doc
  dhcp_server_doc : Object DhcpServerSpec → Doc
  address_doc : Object AddressSpec → Doc
  group_doc : Object GroupSpec → Doc
  service_doc : Object ServiceSpec → Doc
  rule_set_doc : Object RuleSetSpec → Doc
  user_doc : Object UserSpec → Doc

unfoldable pub header : Doc → String × Meta
header (system_doc o) = (o.kind, o.metadata)
header (color_doc o) = (o.kind, o.metadata)
header (interface_doc o) = (o.kind, o.metadata)
header (zone_doc o) = (o.kind, o.metadata)
header (static_route_doc o) = (o.kind, o.metadata)
header (dhcp_server_doc o) = (o.kind, o.metadata)
header (address_doc o) = (o.kind, o.metadata)
header (group_doc o) = (o.kind, o.metadata)
header (service_doc o) = (o.kind, o.metadata)
header (rule_set_doc o) = (o.kind, o.metadata)
header (user_doc o) = (o.kind, o.metadata)

-- The type assertion `o.(Object[S])` of `putObj`.
unfoldable pub as_object : (k : KindName) → Doc → Option (Object (SpecOf k))
as_object system (system_doc o) = some o
as_object color (color_doc o) = some o
as_object interface (interface_doc o) = some o
as_object zone (zone_doc o) = some o
as_object static_route (static_route_doc o) = some o
as_object dhcp_server (dhcp_server_doc o) = some o
as_object address (address_doc o) = some o
as_object address_group (group_doc o) = some o
as_object service (service_doc o) = some o
as_object service_group (group_doc o) = some o
as_object rule_set (rule_set_doc o) = some o
as_object user (user_doc o) = some o
as_object _ _ = none

-- An object of a list as a `Doc`.
unfoldable pub to_doc : (k : KindName) → Object (SpecOf k) → Doc
to_doc system o = system_doc o
to_doc color o = color_doc o
to_doc interface o = interface_doc o
to_doc zone o = zone_doc o
to_doc static_route o = static_route_doc o
to_doc dhcp_server o = dhcp_server_doc o
to_doc address o = address_doc o
to_doc address_group o = group_doc o
to_doc service o = service_doc o
to_doc service_group o = group_doc o
to_doc rule_set o = rule_set_doc o
to_doc user o = user_doc o
