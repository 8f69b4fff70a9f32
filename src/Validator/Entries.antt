-- ===== src/Validator/Entries.antt =====
-- PoC-webui-v2/internal/validator/validator.go: the checks of Addresses and Services.
use songbird_prototypes.Prelude.{
  ℕ, String, Bool, ◌||◌, not, [], ◌∷◌, ◌==◌, ltb, if◌then◌else◌, concat, quoted, decimal,
}
use songbird_prototypes.Model.Types.{
  Object, AddressSpec, AddressRange, ServiceSpec, ProtocolEntry, PortRange, form,
}
use songbird_prototypes.Model.Ports.{port_text}
use songbird_prototypes.Model.Objects.{name_of}
use songbird_prototypes.Model.Tree.{address_doc, service_doc}
use songbird_prototypes.Netip.{Addr, Prefix, Texts, is4, masked, same_prefix, less, prefix_text}
use songbird_prototypes.Predefined.{Shipped, service_matches}
use songbird_prototypes.Validator.Checks.{
  Env, Check, ◌>>=◌, ◌>>◌, done, at, err, warn, when, given, for, for_from, ref,
}

module _ (netip : Texts) (env : Env) where
  subnet_check : AddressSpec → Prefix → Check (Unit {0})
  subnet_check s p =
      if not (is4 p.addr)
      then warn "ipv6-deferred" "R-057" "spec.subnet"
          "IPv6 Addresses are stored but never match: IPv6 is deferred"
      else when (not (same_prefix (masked p) p)) (
          warn "cidr-host-bits" "DM-14" "spec.subnet" (
            concat (
              s.subnet ∷ " has host bits set: it is used as " ∷ prefix_text netip (masked p) ∷ [])))

  ends_check : Addr → Addr → Check (Unit {0})
  ends_check a b =
      if not (if is4 a then is4 b else not (is4 b))
      then err "range-family" "DM-14" "spec.range" "range start and end must be the same IP family"
      else when (less b a) (
          err "range-order" "DM-14" "spec.range"
            (concat ("range start " ∷ netip.text a ∷ " is after range end " ∷ netip.text b ∷ [])))

  range_check : AddressRange → Check (Unit {0})
  unfolding ends_check
  range_check r =
      given (netip.parse_addr r.start) (λ a. given (netip.parse_addr r.end) (ends_check a))

  form_check : AddressSpec → String → Check (Unit {0})
  unfolding subnet_check range_check
  form_check s f =
      if f == "subnet"
      then given (netip.parse_prefix s.subnet) (subnet_check s)
      else if f == "range"
      then given s.range range_check
      else if f == "fqdn"
      then warn "dataplane-unsupported" "R-012" "spec.fqdn"
          "FQDN Addresses are not supported by the Data Plane yet (dataplane.md §7.3): Policies using it never match"
      else when (f == "mac") (
          warn "dataplane-unsupported" "R-012" "spec.mac"
            "MAC Addresses are not supported by the Data Plane yet (dataplane.md §7.3): Policies using it never match")

  unfoldable pub address_check : Object AddressSpec → Check (Unit {0})
  unfolding form_check
  address_check a = do
    at (address_doc a)
    when (not (a.spec.interface == ""))
        (ref env.net_ns a.spec.interface "spec.interface" ("Interface" ∷ []) >>= λ o. done)
    form_check a.spec (form a.spec)

  unfoldable pub addresses : Check (Unit {0})
  addresses = for env.t.addresses address_check

module _ (shipped : Shipped) (env : Env) where
  abbrev pub bad_range : PortRange → Bool
  bad_range r = ltb r.lo 1 || ltb 65535 r.hi || ltb r.hi r.lo

  port_check : ℕ → String → PortRange → Check (Unit {0})
  port_check k f r = when (bad_range r) (
      err "port-range" "DM-17" (concat ("spec.protocols[" ∷ decimal k ∷ "]." ∷ f ∷ []))
        (concat (port_text r ∷ " is not an ordered range within 1-65535" ∷ [])))

  -- The source ranges over a map of the two fields: it may report them in the other order.
  protocol_check : ℕ → ProtocolEntry → Check (Unit {0})
  unfolding port_check
  protocol_check k p =
      given p.port (port_check k "port") >> given p.source_port (port_check k "sourcePort")

  unfoldable pub service_check : Object ServiceSpec → Check (Unit {0})
  unfolding protocol_check
  service_check s = do
    at (service_doc s)
    for_from 0 s.spec.protocols protocol_check
    when (not (service_matches shipped s)) (
        err "predefined-service" "DM-21" "spec.protocols" (
          concat (
            quoted (name_of s)
            ∷ " is a predefined Service: its protocols cannot change (only metadata is editable)"
            ∷ [])))

  unfoldable pub services : Check (Unit {0})
  services = for env.t.services service_check
