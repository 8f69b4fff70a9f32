-- ===== src/Validator/RuleSets.antt =====
-- PoC-webui-v2/internal/validator/rulesets.go: the checks of one Policy: its references, the addresses
-- of a dnat Policy, and its NAT. A side that is none is the nil
-- slice of the source; the slice of a Zone without Interfaces is empty and not nil, by `normalize`.
pub mod Collected
pub mod Disjoint
pub mod Policies
pub mod Overlaps
use songbird_prototypes.Prelude.{
  ℕ, String, Bool, true, false, ◌&&◌, ◌||◌, not, Option, none, some, List, [], ◌∷◌, ◌++◌, ◌==◌, leb,
  eqb, if◌then◌else◌, any, is_empty, contains, concat, join, quoted, sort_texts,
}
use songbird_prototypes.Model.Types.{
  Object, InterfaceSpec, AddressSpec, ServiceSpec, ProtocolEntry, PortRange, Nat, Rule, RuleSetSpec,
  is_any,
}
use songbird_prototypes.Model.Ports.{single}
use songbird_prototypes.Model.Objects.{name_of}
use songbird_prototypes.Model.Tree.{KindName, Doc, header, as_object}
use songbird_prototypes.Model.Lookups.{expand_addresses, interface_named, zone_of}
use songbird_prototypes.Netip.{Prefix, Texts, masked, bit_len, prefix_text}
use songbird_prototypes.Validator.Checks.{
  Env, Check, return, ◌>>=◌, ◌>>◌, done, err, warn, when, given, for, for_from, indexed, ref,
}
use songbird_prototypes.Validator.Network.{prefixes}
use songbird_prototypes.Validator.Intervals.{Iv}
use songbird_prototypes.Validator.Sets.{addr_interval, svc_set, protocols}

-- The assertions `o.(m.Address)` and `o.(m.Service)`, as that of an Interface.
unfoldable pub the_address : Option Doc → Option (Object AddressSpec)
the_address none = none
the_address (some o) = as_object KindName.address o

unfoldable pub the_service : Option Doc → Option (Object ServiceSpec)
the_service none = none
the_service (some o) = as_object KindName.service o

abbrev pub dotted : String → String → String
dotted base field = concat (base ∷ field ∷ [])

module _ (env : Env) where
  -- The Zone of a side that is an Interface, "" for a side that is not.
  unfoldable pub member_zone : Doc → String → String
  member_zone o side = if (header o).0 == "Interface" then zone_of env.t side else ""

  zone_member_error : String → String → String → Check (Unit {0})
  zone_member_error path i z = when (not (z == "")) (
      err "zone-member" "DM-38" path (
        concat (
          "Interface "
          ∷ quoted i
          ∷ " belongs to Zone "
          ∷ quoted z
          ∷ ": reference the Zone (members are used directly only between two Interfaces of the same Zone)"
          ∷ [])))

  unfoldable pub zone_members : RuleSetSpec → Doc → Doc → Check (Unit {0})
  unfolding zone_member_error
  zone_members s from to =
      let zf = member_zone from s.from in
      let zt = member_zone to s.to in
      if not (zf == "") && (zf == zt)
      then done
      else zone_member_error "spec.from" s.from zf >> zone_member_error "spec.to" s.to zt

  via : Object AddressSpec → String → String
  via a r =
      if not (name_of a == r) then concat (" (member " ∷ quoted (name_of a) ∷ ")" ∷ []) else ""

  -- The binding of DM-12, for an Address that the reference `r` stands for.
  -- `side != nil`, and the Interface is not in it.
  off_side : Option (List String) → String → Bool
  off_side none i = false
  off_side (some side) i = not (i == "") && not (contains side i)

  unfoldable pub binding_check :
      String
      → String
      → Option (List String)
      → String
      → String
      → Bool
      → Object AddressSpec
      → Check (Unit {0})
  unfolding via off_side
  binding_check r p side side_name verb destination a = do
    when (destination && not (a.spec.mac == "")) (
        err "mac-as-destination" "R-012" p
          (concat ("MAC Address " ∷ quoted (name_of a) ∷ " can only be used as source" ∷ [])))
    when (off_side side a.spec.interface) (
        err "address-binding" "DM-12" p (
          concat (
            quoted r
            ∷ via a r
            ∷ " is bound to Interface "
            ∷ quoted a.spec.interface
            ∷ ", but this RuleSet's traffic "
            ∷ verb
            ∷ " "
            ∷ side_name
            ∷ [])))

  address_ref :
      String → Option (List String) → String → String → Bool → ℕ → String → Check (Unit {0})
  address_ref path side side_name verb destination k r =
      ref env.addr_ns r (indexed path k) ("Address" ∷ "AddressGroup" ∷ []) >>= λ o. given o (λ d.
        for (expand_addresses env.t r)
          (binding_check r (indexed path k) side side_name verb destination))

  unfoldable pub address_refs :
      List String → String → Option (List String) → String → String → Bool → Check (Unit {0})
  unfolding address_ref
  address_refs refs path side side_name verb destination =
      if is_any refs
      then done
      else for_from 0 refs (address_ref path side side_name verb destination)

module _ (netip : Texts) (env : Env) where
  interface_prefixes : Option (Object InterfaceSpec) → List Prefix → List Prefix
  interface_prefixes none rest = rest
  interface_prefixes (some i) rest = prefixes netip i ++ rest

  -- The variable `own`.
  own_prefixes : List String → List Prefix
  unfolding interface_prefixes
  own_prefixes [] = []
  own_prefixes (n ∷ ns) = interface_prefixes (interface_named env.t n) (own_prefixes ns)

  -- The source formats the prefix and reads it again; a text that does not parse gives the zero span.
  span_of : Prefix → Iv
  span_of p =
      elim (addr_interval netip (record {
        interface = "";
        subnet = prefix_text netip (masked p);
        range = none;
        fqdn = "";
        mac = "";
      })) [ none ↦ record { lo = 0; hi = 0 } | some i ↦ i ]

  unfoldable pub is_inside : List Prefix → Iv → Bool
  unfolding span_of
  is_inside own span = any (λ p. leb (span_of p).lo span.lo && leb span.hi (span_of p).hi) own

  unbound_check : String → String → List Prefix → Object AddressSpec → Check (Unit {0})
  unbound_check path from_name own a = given (addr_interval netip a.spec) (λ span.
      when (not (is_inside own span) && not (is_empty own)) (
        warn "dnat-destination" "DM-40" path (
          concat (
            quoted (name_of a)
            ∷ " is not an address of "
            ∷ from_name
            ∷ ": traffic to it is not normally received by the firewall"
            ∷ []))))

  public_address :
      String → List String → String → List Prefix → Object AddressSpec → Check (Unit {0})
  unfolding unbound_check
  public_address path from_ifs from_name own a =
      if not (a.spec.interface == "")
      then when (not (contains from_ifs a.spec.interface)) (
          warn "dnat-destination" "DM-40" path (
            concat (
              quoted (name_of a)
              ∷ " is bound to "
              ∷ quoted a.spec.interface
              ∷ ", not to "
              ∷ from_name
              ∷ ": traffic to it is not normally received from there"
              ∷ [])))
      else unbound_check path from_name own a

  unfoldable pub dnat_destination : List String → String → List String → String → Check (Unit {0})
  unfolding own_prefixes public_address
  dnat_destination refs path from_ifs from_name =
      if is_any refs
      then done
      else for_from 0 refs (λ k r.
        for (expand_addresses env.t r)
          (public_address (indexed path k) from_ifs from_name (own_prefixes from_ifs)))

  host_prefix : Option Prefix → Bool
  host_prefix none = false
  host_prefix (some p) = eqb p.bits (bit_len p.addr)

  unfoldable pub single_host_or_range : AddressSpec → Bool
  unfolding host_prefix
  single_host_or_range a = elim (a.range) [
    | some r ↦ true
    | none ↦ host_prefix (netip.parse_prefix a.subnet)
  ]

module _ (netip : Texts) (env : Env) where
  usable_target : String → Option (Object AddressSpec) → Check (Option (Object AddressSpec))
  usable_target base none = return none
  usable_target base (some a) =
      if not (a.spec.fqdn == "") || not (a.spec.mac == "")
      then err "nat-address-kind" "DM-13" (dotted base ".nat.translateIpTo")
          (concat (quoted (name_of a) ∷ " must be a subnet or range Address, not fqdn/mac" ∷ []))
        >> return none
      else return (some a)

  -- The variable `target`.
  unfoldable pub nat_target : Nat → String → Check (Option (Object AddressSpec))
  unfolding usable_target
  nat_target n base =
      if n.translate_ip_to == ""
      then return none
      else (ref env.addr_ns n.translate_ip_to (dotted base ".nat.translateIpTo") ("Address" ∷ [])
          >>= λ o. usable_target base (the_address o))

  unfoldable pub target_check :
      String → List String → String → Object AddressSpec → Check (Unit {0})
  target_check base to_ifs to_name a = do
    when (not (single_host_or_range netip env a.spec)) (
        err "dnat-single-host" "DM-13" (dotted base ".nat.translateIpTo")
          (concat (quoted (name_of a) ∷ " must be a single host (/32) or a range" ∷ [])))
    when (not (a.spec.interface == "") && not (contains to_ifs a.spec.interface)) (
        err "address-binding" "DM-12" (dotted base ".nat.translateIpTo") (
          concat (
            quoted (name_of a)
            ∷ " is bound to Interface "
            ∷ quoted a.spec.interface
            ∷ ", but this RuleSet's traffic leaves through "
            ∷ to_name
            ∷ [])))

  is_single : Option PortRange → Bool
  is_single none = false
  is_single (some r) = single r

  -- The only entry, with a single port of a transport protocol.
  unfoldable pub only_port : List ProtocolEntry → Option ProtocolEntry
  unfolding is_single
  only_port (p ∷ []) =
      if contains ("tcp" ∷ "udp" ∷ "sctp" ∷ []) p.protocol && is_single p.port then some p else none
  only_port _ = none

  shape_check : Rule → Nat → String → Option ProtocolEntry → Check (Unit {0})
  shape_check r n base none =
      err "dnat-service-shape" "DM-13" (dotted base ".nat.translateServiceTo") (
        concat (
          quoted n.translate_service_to
          ∷ " must have exactly one tcp/udp/sctp entry with a single port"
          ∷ []))
  shape_check r n base (some p) =
      let have = protocols (svc_set env.t r.service) in
      when (not (is_empty have) && not (contains have p.protocol)) (
        err "dnat-protocol-mismatch" "DM-13" (dotted base ".nat.translateServiceTo") (
          concat (
            "translateServiceTo uses "
            ∷ p.protocol
            ∷ " but the rule's service has "
            ∷ join ", " (sort_texts have)
            ∷ [])))

  unfoldable pub translated_service : Rule → Nat → String → Check (Unit {0})
  unfolding shape_check
  translated_service r n base = do
    when (is_any r.service) (
        err "dnat-any-service" "DM-40" (dotted base ".service")
          "translateServiceTo requires an explicit service, not \"any\"")
    o ←
        ref env.svc_ns n.translate_service_to (dotted base ".nat.translateServiceTo")
          ("Service" ∷ [])
    given (the_service o) (λ s. shape_check r n base (only_port s.spec.protocols))

  unfoldable pub dnat_check :
      Rule → Nat → String → List String → String → Option (Object AddressSpec) → Check (Unit {0})
  dnat_check r n base to_ifs to_name target = do
    when (is_any r.destination) (
        err "dnat-any-destination" "DM-40" (dotted base ".destination")
          "a dnat rule needs an explicit destination (the public address), not \"any\"")
    given target (target_check base to_ifs to_name)
    if n.translate_service_to == "" then done else translated_service r n base

  unfoldable pub nat_check : Rule → String → List String → String → Nat → Check (Unit {0})
  nat_check r base to_ifs to_name n = nat_target n base >>= λ target.
      if not (n.type == "dnat") then done else dnat_check r n base to_ifs to_name target
