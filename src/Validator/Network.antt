-- ===== src/Validator/Network.antt =====
-- PoC-webui-v2/internal/validator/validator.go: the checks of Interfaces, Zones and StaticRoutes.
pub mod ZoneMembers
use songbird_prototypes.Prelude.{
  ℕ, String, Bool, true, false, ◌&&◌, not, Option, none, some, List, [], ◌∷◌, ◌++◌, ◌==◌, ltb,
  if◌then◌else◌, lookup, concat, quoted, decimal,
}
use songbird_prototypes.Model.Types.{
  Object, InterfaceSpec, Ipv4Config, Ipv6Config, RouterAdvertisement, ZoneSpec, StaticRouteSpec,
  static_addresses, preference,
}
use songbird_prototypes.Model.Objects.{name_of}
use songbird_prototypes.Model.Tree.{
  KindName, Doc, interface_doc, zone_doc, static_route_doc, as_object,
}
use songbird_prototypes.Netip.{
  Addr, Prefix, Texts, is4, masked, includes, same_prefix, prefix_overlaps, next, prefix_text,
}
use songbird_prototypes.Validator.Checks.{
  Env, Check, return, ◌>>=◌, ◌>>◌, done, at, err, warn, when, given, for, fold, fold_from, indexed,
  ref,
}

-- The type assertion `o.(m.Interface)`. An object of kind Interface is an `interface_doc`, since a
-- tree is filled through `Put` and its kin; else the source would panic, and the check ends here.
unfoldable pub the_interface : Option Doc → Option (Object InterfaceSpec)
the_interface none = none
the_interface (some o) = as_object KindName.interface o

-- The map's entry, if there is one and `b` holds.
abbrev pub entry_if : Bool → Option String → Option String
entry_if b o = if b then o else none

-- The search of `inAny`.
unfoldable pub in_any : Addr → List Prefix → Option Prefix
in_any ip [] = none
in_any ip (p ∷ ps) = if includes p ip then some p else in_any ip ps

abbrev pub is_some : {A : Type 0} → Option A → Bool
is_some none = false
is_some (some a) = true

module _ (netip : Texts) where
  ipv4_prefix : Option Prefix → List Prefix → List Prefix
  ipv4_prefix none rest = rest
  ipv4_prefix (some p) rest = if is4 p.addr then p ∷ rest else rest

  prefixes_of : List String → List Prefix
  unfolding ipv4_prefix
  prefixes_of [] = []
  prefixes_of (a ∷ l) = ipv4_prefix (netip.parse_prefix a) (prefixes_of l)

  -- The IPv4 prefixes of an Interface.
  unfoldable pub prefixes : Object InterfaceSpec → List Prefix
  unfolding prefixes_of
  prefixes i = prefixes_of (static_addresses i.spec)

-- The variables of the loop over the Interfaces.
pub record Used : Type 0 where
  pub vlans : List (String × String)
  pub devices : List (String × String)
  pub all : List (Prefix × String)

module _ (netip : Texts) (env : Env) where
  vlan_parent : Option (Object InterfaceSpec) → Check (Unit {0})
  vlan_parent o = given o (λ p.
      when (not (p.spec.type == "physical")) (
        err "vlan-parent" "DM-03" "spec.parent"
          "the parent of a VLAN must be a physical Interface"))

  unfoldable pub vlan_key : InterfaceSpec → String
  vlan_key s = concat (s.parent ∷ "/" ∷ decimal s.vlan_id ∷ [])

  vlan : Object InterfaceSpec → Used → Check Used
  unfolding vlan_parent
  vlan i used = do
    p ← ref env.net_ns i.spec.parent "spec.parent" ("Interface" ∷ [])
    vlan_parent (the_interface p)
    given (lookup (vlan_key i.spec) used.vlans) (λ other.
        err "duplicate-vlan" "DM-03" "spec.vlanId" (
          concat (
            "VLAN "
            ∷ decimal i.spec.vlan_id
            ∷ " on "
            ∷ quoted i.spec.parent
            ∷ " is already defined by "
            ∷ quoted other
            ∷ [])))
    return (record used { vlans = (vlan_key i.spec, name_of i) ∷ used.vlans })

  physical : Object InterfaceSpec → Used → Check Used
  physical i used = do
    given (entry_if (not (i.spec.device == "")) (lookup i.spec.device used.devices)) (λ other.
        err "duplicate-device" "DM-03" "spec.device"
          (concat ("device " ∷ quoted i.spec.device ∷ " is already used by " ∷ quoted other ∷ [])))
    return (record used { devices = (i.spec.device, name_of i) ∷ used.devices })

  by_type : Object InterfaceSpec → Used → Check Used
  unfolding vlan physical
  by_type i used =
      if i.spec.type == "vlan"
      then vlan i used
      else if i.spec.type == "physical"
      then physical i used
      else return used

  static_prefix :
      Object InterfaceSpec
      → String
      → String
      → Option Prefix
      → List (Prefix × String)
      → Check (List (Prefix × String))
  static_prefix i path a none all = return all
  static_prefix i path a (some p) all = do
    when (same_prefix (masked p) p && ltb p.bits 31) (
        err "interface-address" "R-020.4" path (
          concat (
            a
            ∷ " is a network address: an Interface needs a host address, e.g. "
            ∷ netip.text (next p.addr)
            ∷ [])))
    for all (λ o. when (prefix_overlaps o.0 p) (
        err "subnet-overlap" "DM-04" path
          (concat (a ∷ " overlaps " ∷ prefix_text netip o.0 ∷ " of Interface " ∷ quoted o.1 ∷ []))))
    return (all ++ (masked p, name_of i) ∷ [])

  ipv4_gateway : Object InterfaceSpec → Ipv4Config → Check (Unit {0})
  ipv4_gateway i c = when (not (c.gateway == "")) (
      given (netip.parse_addr c.gateway) (λ gw.
        when (not (is_some (in_any gw (prefixes netip i)))) (
          err "gateway-off-link" "DM-22" "spec.ipv4.gateway"
            (concat ("gateway " ∷ netip.text gw ∷ " is not in a subnet of this Interface" ∷ [])))))

  abbrev delegates : Option Ipv6Config → Bool
  delegates none = false
  delegates (some c) = c.mode == "dhcpv6-pd"

  delegated : RouterAdvertisement → Check (Unit {0})
  delegated ra = when (not (ra.delegated_prefix_from == "")) (
      ref env.net_ns ra.delegated_prefix_from "spec.ipv6.routerAdvertisement.delegatedPrefixFrom"
        ("Interface" ∷ [])
      >>= λ src. given (the_interface src) (λ i. when (not (delegates i.spec.ipv6)) (
          err "pd-source" "R-017.4" "spec.ipv6.routerAdvertisement.delegatedPrefixFrom"
            (concat (quoted ra.delegated_prefix_from ∷ " is not in dhcpv6-pd mode" ∷ [])))))

  ipv6_check : Ipv6Config → Check (Unit {0})
  unfolding delegated
  ipv6_check c = when (not (c.mode == "none")) (
      warn "ipv6-deferred" "R-057" "spec.ipv6"
        "IPv6 is deferred (domain model v0.6 is IPv4 only): stored, not applied; IPv6 packets are dropped and counted"
      >> given c.router_advertisement delegated)

  unfoldable pub interface_check : Object InterfaceSpec → Used → Check Used
  unfolding by_type static_prefix ipv4_gateway ipv6_check
  interface_check i used = do
    at (interface_doc i)
    u ← by_type i used
    all ←
        fold_from 0 (static_addresses i.spec)
          (λ k a all.
            static_prefix i (indexed "spec.ipv4.addresses" k) a (netip.parse_prefix a) all)
          u.all
    given i.spec.ipv4 (ipv4_gateway i)
    given i.spec.ipv6 ipv6_check
    return (record u { all = all })

  unfoldable pub interfaces : Check (Unit {0})
  unfolding interface_check
  interfaces =
      fold env.t.interfaces interface_check (record { vlans = []; devices = []; all = [] }) >>= λ u.
      done

module _ (env : Env) where
  -- `zones` is the map `zoneOf`; `continue` where the target is missing.
  unfoldable pub join_zone :
      String
      → String
      → String
      → Option Doc
      → List (String × String)
      → Check (List (String × String))
  join_zone z path i none zones = return zones
  join_zone z path i (some o) zones = do
    given (lookup i zones) (λ other.
        err "zone-overlap" "DM-37" path
          (concat ("Interface " ∷ quoted i ∷ " already belongs to Zone " ∷ quoted other ∷ [])))
    return ((i, z) ∷ zones)

  unfoldable pub zone_member :
      String → ℕ → String → List (String × String) → Check (List (String × String))
  zone_member z k i zones =
      ref env.net_ns i (indexed "spec.interfaces" k) ("Interface" ∷ []) >>= λ o.
      join_zone z (indexed "spec.interfaces" k) i o zones

  unfoldable pub zone_check :
      Object ZoneSpec → List (String × String) → Check (List (String × String))
  zone_check z zones =
      at (zone_doc z) >> fold_from 0 z.spec.interfaces (zone_member (name_of z)) zones

  unfoldable pub zones : Check (Unit {0})
  zones = fold env.t.zones zone_check [] >>= λ m. done

module _ (netip : Texts) (env : Env) where
  route_gateway : StaticRouteSpec → Object InterfaceSpec → Check (Unit {0})
  route_gateway s i = given (netip.parse_addr s.gateway) (λ gw.
      when (not (is_some (in_any gw (prefixes netip i)))) (
        err "gateway-off-link" "DM-22" "spec.gateway"
          (concat (netip.text gw ∷ " is not in a subnet of Interface " ∷ quoted s.interface ∷ []))))

  unfoldable pub route_key : StaticRouteSpec → Prefix → String
  route_key s dst =
      let (d, p) = preference s in
      concat (prefix_text netip (masked dst) ∷ "|" ∷ decimal d ∷ "|" ∷ decimal p ∷ [])

  route_tie :
      Object StaticRouteSpec
      → Option Prefix
      → List (String × String)
      → Check (List (String × String))
  route_tie r none seen = return seen
  route_tie r (some dst) seen = do
    given (lookup (route_key r.spec dst) seen) (λ other.
        err "route-tie" "DM-23" "spec.priority"
          (concat ("same destination, distance and priority as route " ∷ quoted other ∷ [])))
    return ((route_key r.spec dst, name_of r) ∷ seen)

  unfoldable pub route_check :
      Object StaticRouteSpec → List (String × String) → Check (List (String × String))
  unfolding route_gateway route_tie
  route_check r seen = do
    at (static_route_doc r)
    o ← ref env.net_ns r.spec.interface "spec.interface" ("Interface" ∷ [])
    given (the_interface o) (route_gateway r.spec)
    route_tie r (netip.parse_prefix r.spec.destination) seen

  unfoldable pub routes : Check (Unit {0})
  unfolding route_check
  routes = fold env.t.static_routes route_check [] >>= λ m. done
