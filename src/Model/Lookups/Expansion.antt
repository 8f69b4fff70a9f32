-- ===== src/Model/Lookups/Expansion.antt =====
-- tree.go, `ExpandAddresses` and `ExpandServices`: cycles included, an expansion holds exactly the
-- objects that the groups reach.
use songbird_prototypes.Prelude.{
  suc, String, ◌≡◌, refl, ap, true, some, List, [], ◌∷◌, map, arith, length, contains,
}
use mathlib.Core.List.{Memᴰ}
use songbird_prototypes.Model.Types.{Object, AddressSpec, GroupSpec, ServiceSpec}
use songbird_prototypes.Model.Objects.{name_of, find}
use songbird_prototypes.Model.Tree.{Tree}
use songbird_prototypes.Model.Walk.Reaches.{Reaches, closure_iff}
use songbird_prototypes.Model.Lookups.{
  members, address_named, service_named, expand_addresses, expand_services,
}

length-map_name : (gs : List (Object GroupSpec)) → length (map name_of gs) ≡ length gs
length-map_name [] = refl
length-map_name (g ∷ gs) = ap suc (length-map_name gs)

members_known :
    (gs : List (Object GroupSpec)) (n : String) (ms : List String)
    → members gs n ≡ some ms
    → contains (map name_of gs) n ≡ true
unfolding members find
members_known [] n ms h = cc
members_known (g ∷ gs) n ms h = ground (arith, members_known gs n ms)

-- An Address stands in the expansion of a reference exactly when the reference is its name, or leads
-- to it through Address Groups, in a tree of any shape.
pub expand_addresses_iff :
    (t : Tree) (ref : String) (a : Object AddressSpec)
    → (Memᴰ a (expand_addresses t ref) → Reaches (address_named t) (members t.address_groups) a ref)
      × (Reaches (address_named t) (members t.address_groups) a ref
          → Memᴰ a (expand_addresses t ref))
unfolding expand_addresses
expand_addresses_iff t ref a =
    closure_iff (address_named t) (members t.address_groups) (map name_of t.address_groups)
      (members_known t.address_groups) (suc (length t.address_groups)) ref a
      (omega (arith, length-map_name t.address_groups))

-- The same for Services and Service Groups.
pub expand_services_iff :
    (t : Tree) (ref : String) (s : Object ServiceSpec)
    → (Memᴰ s (expand_services t ref) → Reaches (service_named t) (members t.service_groups) s ref)
      × (Reaches (service_named t) (members t.service_groups) s ref
          → Memᴰ s (expand_services t ref))
unfolding expand_services
expand_services_iff t ref s =
    closure_iff (service_named t) (members t.service_groups) (map name_of t.service_groups)
      (members_known t.service_groups) (suc (length t.service_groups)) ref s
      (omega (arith, length-map_name t.service_groups))
