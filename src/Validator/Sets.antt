-- ===== src/Validator/Sets.antt =====
-- PoC-webui-v2/internal/validator/sets.go: the address and service sets of a Policy. A list of
-- references that is ["any"] gives the set of everything.
pub mod Points
use songbird_prototypes.Prelude.{
  ℕ, ◌+◌, ◌-◌, ◌%◌, ◌^◌, max, String, Bool, true, false, ◌&&◌, ◌||◌, not, Option, none, some, List,
  [], ◌∷◌, ◌++◌, map, ◌==◌, if◌then◌else◌, any, all, is_empty, lookup, has_key,
}
use songbird_prototypes.Model.Types.{
  Object, AddressSpec, ServiceSpec, ProtocolEntry, PortRange, is_any,
}
use songbird_prototypes.Model.Tree.{Tree}
use songbird_prototypes.Model.Lookups.{expand_addresses, expand_services}
use songbird_prototypes.Netip.{Addr, Prefix, Texts, is4, masked, host_count, less}
use songbird_prototypes.Validator.Intervals
use songbird_prototypes.Validator.Intervals.{Iv, Ivs}

-- The 32 bits of an IPv4 address.
abbrev pub u32 : Addr → ℕ
u32 a = a.value % 2 ^ 32

-- The host bits of a masked address are 0, so setting them adds them.
subnet_interval : Prefix → Option Iv
subnet_interval p =
    if not (is4 p.addr)
    then none
    else (let lo = u32 (masked p).addr in some (record { lo = lo; hi = lo + (host_count p - 1) }))

range_interval : Addr → Addr → Option Iv
range_interval s e =
    if not (is4 s) || not (is4 e) || less e s
    then none
    else some (record { lo = u32 s; hi = u32 e })

abbrev pub then_option : {A B : Type 0} → Option A → (A → Option B) → Option B
then_option none f = none
then_option (some a) f = f a

-- The IPv4 span of an Address.
unfoldable pub addr_interval : Texts → AddressSpec → Option Iv
unfolding subnet_interval range_interval
addr_interval netip a =
    if not (a.subnet == "")
    then then_option (netip.parse_prefix a.subnet) subnet_interval
    else then_option a.range (λ r.
      then_option (netip.parse_addr r.start)
        (λ s. then_option (netip.parse_addr r.end) (range_interval s)))

pub record AddrSet : Type 0 where
  pub every : Bool  -- `any` in the source
  pub ivs : Ivs

with_interval : Option Iv → Ivs → Ivs
with_interval none rest = rest
with_interval (some i) rest = i ∷ rest

intervals_of : Texts → List (Object AddressSpec) → Ivs
unfolding with_interval
intervals_of netip [] = []
intervals_of netip (a ∷ l) = with_interval (addr_interval netip a.spec) (intervals_of netip l)

intervals_of_refs : Texts → Tree → List String → Ivs
unfolding intervals_of
intervals_of_refs netip t [] = []
intervals_of_refs netip t (r ∷ rs) =
    intervals_of netip (expand_addresses t r) ++ intervals_of_refs netip t rs

unfoldable pub addr_set : Texts → Tree → List String → AddrSet
unfolding intervals_of_refs
addr_set netip t refs =
    if is_any refs
    then record { every = true; ivs = [] }
    else record { every = false; ivs = intervals_of_refs netip t refs }

unfoldable pub addr_overlaps : AddrSet → AddrSet → Bool
addr_overlaps a b =
    if a.every
    then b.every || not (is_empty b.ivs)
    else if b.every
    then not (is_empty a.ivs)
    else Intervals.overlaps a.ivs b.ivs

unfoldable pub addr_covers : AddrSet → AddrSet → Bool
addr_covers a b = if a.every then true else if b.every then false else Intervals.covers a.ivs b.ivs

abbrev pub PortMap : Type 0
PortMap = List (String × Ivs)

-- `ports[proto] = append(ports[proto], i)`.
unfoldable pub add_port : String → Iv → PortMap → PortMap
add_port proto i [] = (proto, i ∷ []) ∷ []
add_port proto i ((p, l) ∷ m) =
    if p == proto then (p, l ++ i ∷ []) ∷ m else (p, l) ∷ add_port proto i m

-- Every port, where an entry has none.
unfoldable pub port_interval : Option PortRange → Iv
port_interval none = record { lo = 0; hi = 65535 }
port_interval (some r) = record { lo = r.lo % 2 ^ 32; hi = r.hi % 2 ^ 32 }

add_entries : List ProtocolEntry → PortMap → PortMap
add_entries [] m = m
add_entries (p ∷ ps) m = add_entries ps (add_port p.protocol (port_interval p.port) m)

add_services : List (Object ServiceSpec) → PortMap → PortMap
unfolding add_entries
add_services [] m = m
add_services (s ∷ ss) m = add_services ss (add_entries s.spec.protocols m)

add_refs : Tree → List String → PortMap → PortMap
unfolding add_services
add_refs t [] m = m
add_refs t (r ∷ rs) m = add_refs t rs (add_services (expand_services t r) m)

pub record SvcSet : Type 0 where
  pub every : Bool  -- `any` in the source
  pub ports : PortMap

unfoldable pub svc_set : Tree → List String → SvcSet
unfolding add_refs
svc_set t refs =
    if is_any refs
    then record { every = true; ports = [] }
    else record { every = false; ports = add_refs t refs [] }

-- A map's list, nil where the protocol is missing.
abbrev pub ports_of : String → PortMap → Ivs
ports_of proto m = elim (lookup proto m) [ none ↦ [] | some l ↦ l ]

unfoldable pub svc_overlaps : SvcSet → SvcSet → Bool
svc_overlaps a b =
    a.every
    || b.every
    || any
        (λ (e : String × Ivs). has_key e.0 b.ports && Intervals.overlaps e.1 (ports_of e.0 b.ports))
        a.ports

unfoldable pub svc_covers : SvcSet → SvcSet → Bool
svc_covers a b =
    if a.every
    then true
    else if b.every
    then false
    else all
        (λ (e : String × Ivs). has_key e.0 a.ports && Intervals.covers (ports_of e.0 a.ports) e.1)
        b.ports

-- Whether the set contains a port of a protocol.
unfoldable pub svc_has : SvcSet → String → ℕ → Bool
svc_has a proto port =
    a.every
    || Intervals.overlaps (ports_of proto a.ports)
        (record { lo = port % 2 ^ 32; hi = port % 2 ^ 32 } ∷ [])

unfoldable pub protocols : SvcSet → List String
protocols a = map (λ e. e.0) a.ports

-- The destination ports that a dnat Policy expands to.
counted_ports : ℕ → PortMap → ℕ
counted_ports n [] = n
counted_ports n ((proto, l) ∷ m) =
    counted_ports
      (if (proto == "tcp") || (proto == "udp") || (proto == "sctp")
        then (n + Intervals.size l) % 2 ^ 64
        else n)
      m

unfoldable pub port_count : SvcSet → ℕ
unfolding counted_ports
port_count s = if s.every then 65535 else max (counted_ports 0 s.ports) 1
