-- ===== src/Model/Lookups.antt =====
-- PoC-webui-v2/internal/model/tree.go: the lookups that the Validator, the Compiler and the
-- simulators share.
pub mod Expansion
pub mod Zones
use songbird_prototypes.Prelude.{
  suc, String, Option, none, some, List, [], ◌∷◌, if◌then◌else◌, length, contains,
}
use mathlib.Core.Option
use songbird_prototypes.Model.Types.{
  Object, InterfaceSpec, ZoneSpec, AddressSpec, GroupSpec, ServiceSpec,
}
use songbird_prototypes.Model.Objects.{name_of, find}
use songbird_prototypes.Model.Tree.{Tree}
use songbird_prototypes.Model.Walk.{walk}
use songbird_prototypes.Model.Walk.Reaches.{closure}

unfoldable pub interface_named : Tree → String → Option (Object InterfaceSpec)
interface_named t n = find n t.interfaces

unfoldable pub zone_named : Tree → String → Option (Object ZoneSpec)
zone_named t n = find n t.zones

unfoldable pub address_named : Tree → String → Option (Object AddressSpec)
address_named t n = find n t.addresses

unfoldable pub address_group_named : Tree → String → Option (Object GroupSpec)
address_group_named t n = find n t.address_groups

unfoldable pub service_named : Tree → String → Option (Object ServiceSpec)
service_named t n = find n t.services

unfoldable pub service_group_named : Tree → String → Option (Object GroupSpec)
service_group_named t n = find n t.service_groups

unfoldable pub zone_in : List (Object ZoneSpec) → String → String
zone_in [] i = ""
zone_in (z ∷ zs) i = if contains z.spec.interfaces i then name_of z else zone_in zs i

-- The name of the first Zone that an Interface belongs to, "" if there is none.
unfoldable pub zone_of : Tree → String → String
unfolding zone_in
zone_of t i = zone_in t.zones i

-- The Interfaces of a side of a RuleSet, which is a Zone or an Interface.
unfoldable pub side : Tree → String → List String
side t ref = elim (zone_named t ref) [
  | some z ↦ z.spec.interfaces
  | none ↦ elim (interface_named t ref) [ some i ↦ ref ∷ [] | none ↦ [] ]
]

-- `Side` with the nil slice as none: the list of a Zone is not nil, since `normalize` has made it explicit.
unfoldable pub bound_side : Tree → String → Option (List String)
bound_side t ref = elim (zone_named t ref) [
  | some z ↦ some z.spec.interfaces
  | none ↦ elim (interface_named t ref) [ some i ↦ some (ref ∷ []) | none ↦ none ]
]

unfoldable pub members : List (Object GroupSpec) → String → Option (List String)
members groups n = Option.map (λ g. g.spec.members) (find n groups)

-- The Addresses of a reference, with one unit of fuel more than there are groups.
unfoldable pub expand_addresses : Tree → String → List (Object AddressSpec)
unfolding members address_named walk
expand_addresses t ref =
    closure (address_named t) (members t.address_groups) (suc (length t.address_groups)) ref

unfoldable pub expand_services : Tree → String → List (Object ServiceSpec)
unfolding members service_named walk
expand_services t ref =
    closure (service_named t) (members t.service_groups) (suc (length t.service_groups)) ref
