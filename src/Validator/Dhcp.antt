-- ===== src/Validator/Dhcp.antt =====
-- PoC-webui-v2/internal/validator/validator.go, `dhcp`: the checks of the DHCP servers. A `continue` of
-- the loop returns its variables as they are.
use songbird_prototypes.Prelude.{
  ℕ, ◌*◌, ◌^◌, String, Bool, false, ◌&&◌, ◌||◌, not, Option, none, some, List, [], ◌∷◌, ◌++◌, ◌==◌,
  ltb, if◌then◌else◌, lookup, contains, concat, quoted, to_lower,
}
use songbird_prototypes.Model.Types.{
  Object, InterfaceSpec, DhcpServerSpec, DhcpReservation, effective_role,
}
use songbird_prototypes.Model.Durations.{Duration, parse_duration, second}
use songbird_prototypes.Model.Objects.{name_of}
use songbird_prototypes.Model.Tree.{dhcp_server_doc}
use songbird_prototypes.Netip.{Addr, Prefix, Texts, masked, includes, same_addr, less, prefix_text}
use songbird_prototypes.Validator.Checks.{
  Env, Check, return, ◌>>=◌, ◌>>◌, done, at, err, when, given, for, fold, fold_from, indexed, ref,
}
use songbird_prototypes.Validator.Network.{the_interface, in_any, prefixes}

pub record Pool : Type 0 where
  pub a : Addr
  pub b : Addr
  pub iface : String

pub record Leases : Type 0 where
  pub ranges : List Pool
  pub served : List (String × String)

-- `v < 60e9` on the int64 of this bit pattern.
abbrev pub is_short : Option Duration → Bool
is_short none = false
is_short (some v) = ltb v (60 * second) || not (ltb v (2 ^ 63))

-- `within`: the address is in the range.
abbrev pub within : Addr → Addr → Addr → Bool
within a b ip = not (less ip a) && not (less b ip)

-- Two ranges have an address in common.
abbrev pub pools_meet : Addr → Addr → Pool → Bool
pools_meet a b r = not (less b r.a) && not (less r.b a)

module _ (netip : Texts) where
  taken :
      ℕ
      → DhcpReservation
      → Prefix
      → Addr
      → Addr
      → List String
      → List String
      → Check (List String × List String)
  taken k r pfx gw ip macs ips = do
    let path = indexed "spec.reservations" k
    when (not (includes pfx ip) || same_addr ip pfx.addr || same_addr ip gw) (
        err "dhcp-reservation" "DM-29" (concat (path ∷ ".ip" ∷ [])) (
          concat (
            r.ip
            ∷ " must be in "
            ∷ prefix_text netip (masked pfx)
            ∷ " and differ from the Interface address and the gateway"
            ∷ [])))
    when (contains macs (to_lower r.mac)) (
        err "dhcp-reservation" "DM-29" (concat (path ∷ ".mac" ∷ []))
          (concat ("MAC " ∷ r.mac ∷ " is reserved twice" ∷ [])))
    when (contains ips r.ip) (
        err "dhcp-reservation" "DM-29" (concat (path ∷ ".ip" ∷ []))
          (concat (r.ip ∷ " is reserved twice" ∷ [])))
    return (to_lower r.mac ∷ macs, r.ip ∷ ips)

  reservation_at :
      ℕ
      → DhcpReservation
      → Prefix
      → Addr
      → Option Addr
      → List String × List String
      → Check (List String × List String)
  unfolding taken
  reservation_at k r pfx gw none seen = return seen
  reservation_at k r pfx gw (some ip) (macs, ips) = taken k r pfx gw ip macs ips

  -- The sets `macs` and `ips` of one server.
  unfoldable pub reservation :
      Prefix
      → Addr
      → ℕ
      → DhcpReservation
      → List String × List String
      → Check (List String × List String)
  unfolding reservation_at
  reservation pfx gw k r seen = reservation_at k r pfx gw (netip.parse_addr r.ip) seen

  gateway_in : Addr → Addr → Prefix → Addr → Check Addr
  gateway_in a b pfx g =
      if not (includes pfx g)
      then err "dhcp-gateway" "DM-27" "spec.gateway"
          (concat ("gateway must lie in " ∷ prefix_text netip (masked pfx) ∷ []))
        >> return pfx.addr
      else when (within a b g)
          (err "dhcp-range" "DM-26" "spec.gateway" "the range contains the gateway")
        >> return g

  gateway_at : Addr → Addr → Prefix → Option Addr → Check Addr
  unfolding gateway_in
  gateway_at a b pfx none = return pfx.addr
  gateway_at a b pfx (some g) = gateway_in a b pfx g

  -- The variable `gw`.
  unfoldable pub gateway : DhcpServerSpec → Addr → Addr → Prefix → Check Addr
  unfolding gateway_at
  gateway s a b pfx =
      if s.gateway == "" then return pfx.addr else gateway_at a b pfx (netip.parse_addr s.gateway)

  -- A range that lies in the subnet `pfx`.
  unfoldable pub lease_range : DhcpServerSpec → Addr → Addr → Prefix → Leases → Check Leases
  lease_range s a b pfx l = do
    when (within a b pfx.addr) (
        err "dhcp-range" "DM-26" "spec.rangeStart"
          (concat ("the range contains the Interface address " ∷ netip.text pfx.addr ∷ [])))
    gw ← gateway s a b pfx
    for l.ranges (λ r. when (pools_meet a b r) (
        err "dhcp-overlap" "DM-28" "spec.rangeStart"
          (concat ("the range overlaps the DHCP range of " ∷ quoted r.iface ∷ []))))
    seen ← fold_from 0 s.reservations (reservation pfx gw) ([], [])
    return (record l { ranges = l.ranges ++ record { a = a; b = b; iface = s.interface } ∷ [] })

  outside : DhcpServerSpec → Leases → Check Leases
  outside s l =
      err "dhcp-range" "DM-25" "spec.rangeStart"
        (concat ("the range must lie in one subnet of Interface " ∷ quoted s.interface ∷ []))
      >> return l

  subnet_range : DhcpServerSpec → Addr → Addr → Option Prefix → Leases → Check Leases
  unfolding outside
  subnet_range s a b none l = outside s l
  subnet_range s a b (some pfx) l =
      if not (includes pfx b) then outside s l else lease_range s a b pfx l

  unfoldable pub ordered_range :
      DhcpServerSpec → Object InterfaceSpec → Option Addr → Option Addr → Leases → Check Leases
  unfolding subnet_range
  ordered_range s i (some a) (some b) l =
      if less b a
      then err "dhcp-range" "DM-25" "spec.rangeEnd" "rangeEnd is before rangeStart" >> return l
      else subnet_range s a b (in_any a (prefixes netip i)) l
  ordered_range s i _ _ l = return l

  unfoldable pub served_interface :
      Object DhcpServerSpec → Option (Object InterfaceSpec) → Leases → Check Leases
  served_interface d none l = return l
  served_interface d (some i) l = do
    let s = d.spec
    given (lookup s.interface l.served) (λ other. err "dhcp-duplicate" "R-017.3" "spec.interface" (
        concat (
          "Interface "
          ∷ quoted s.interface
          ∷ " is already served by DhcpServer "
          ∷ quoted other
          ∷ [])))
    when (effective_role i.spec == "external")
        (err "dhcp-role" "DM-24" "spec.interface" "no DHCP server on an external Interface")
    when (not (s.lease_time == "") && is_short (parse_duration s.lease_time))
        (err "dhcp-lease" "R-017.1" "spec.leaseTime" "lease time must be at least 1m")
    ordered_range s i (netip.parse_addr s.range_start) (netip.parse_addr s.range_end)
        (record l { served = (s.interface, name_of d) ∷ l.served })

module _ (netip : Texts) (env : Env) where
  unfoldable pub dhcp_check : Object DhcpServerSpec → Leases → Check Leases
  dhcp_check d l =
      at (dhcp_server_doc d)
      >> ref env.net_ns d.spec.interface "spec.interface" ("Interface" ∷ [])
      >>= λ o. served_interface netip d (the_interface o) l

  unfoldable pub dhcp : Check (Unit {0})
  dhcp = fold env.t.dhcp_servers dhcp_check (record { ranges = []; served = [] }) >>= λ l. done
