-- ===== src/Predefined.antt =====
-- PoC-webui-v2/internal/predefined/predefined.go: the objects shipped with the firewall. The tables
-- themselves are embedded YAML files, here a record.
use songbird_prototypes.Prelude.{
  ℕ, String, Bool, true, false, ◌&&◌, Option, none, some, List, [], ◌∷◌, map, ◌==◌, eqb,
  if◌then◌else◌, concat, join, decimal,
}
use songbird_prototypes.Model.Types.{Object, ColorSpec, ServiceSpec, ProtocolEntry, PortRange}
use songbird_prototypes.Model.Objects.{name_of}
use songbird_prototypes.Model.Ports.{port_text}

pub record Shipped : Type 0 where
  pub palette : List (Object ColorSpec)
  pub services : List (Object ServiceSpec)

hex_in : List (Object ColorSpec) → String → Option String
hex_in [] name = none
hex_in (c ∷ cs) name = if name_of c == name then some c.spec.hex else hex_in cs name

unfoldable pub color_hex : Shipped → String → Option String
unfolding hex_in
color_hex shipped name = hex_in shipped.palette name

unfoldable pub palette_names : Shipped → List String
palette_names shipped = map name_of shipped.palette

service_in : List (Object ServiceSpec) → String → Option (Object ServiceSpec)
service_in [] name = none
service_in (s ∷ ss) name = if name_of s == name then some s else service_in ss name

unfoldable pub service : Shipped → String → Option (Object ServiceSpec)
unfolding service_in
service shipped name = service_in shipped.services name

unfoldable pub is_service : Shipped → String → Bool
unfolding service
is_service shipped name = elim (service shipped name) [ none ↦ false | some s ↦ true ]

same_ports : Option PortRange → Option PortRange → Bool
same_ports none none = true
same_ports (some p) (some q) = eqb p.lo q.lo && eqb p.hi q.hi
same_ports _ _ = false

same_numbers : Option ℕ → Option ℕ → Bool
same_numbers none none = true
same_numbers (some m) (some n) = eqb m n
same_numbers _ _ = false

same_entry : ProtocolEntry → ProtocolEntry → Bool
unfolding same_ports same_numbers
same_entry p q =
    (p.protocol == q.protocol)
    && same_ports p.port q.port
    && same_ports p.source_port q.source_port
    && same_numbers p.icmp_type q.icmp_type
    && same_numbers p.icmp_code q.icmp_code
    && same_numbers p.protocol_number q.protocol_number

-- `reflect.DeepEqual` of two specs.
unfoldable pub same_protocols : List ProtocolEntry → List ProtocolEntry → Bool
unfolding same_entry
same_protocols [] [] = true
same_protocols (p ∷ ps) (q ∷ qs) = same_entry p q && same_protocols ps qs
same_protocols _ _ = false

matches_shipped : Option (Object ServiceSpec) → Object ServiceSpec → Bool
matches_shipped none s = true
matches_shipped (some p) s = same_protocols p.spec.protocols s.spec.protocols

-- A Service keeps the spec of the predefined one of its name.
unfoldable pub service_matches : Shipped → Object ServiceSpec → Bool
unfolding service matches_shipped
service_matches shipped s = matches_shipped (service shipped (name_of s)) s

described : ProtocolEntry → Option PortRange → Option ℕ → Option ℕ → String
described p (some r) type number = concat (p.protocol ∷ "/" ∷ port_text r ∷ [])
described p none (some type) number = concat (p.protocol ∷ " type " ∷ decimal type ∷ [])
described p none none (some number) = concat ("ip proto " ∷ decimal number ∷ [])
described p none none none = p.protocol

describe_entry : ProtocolEntry → String
unfolding described
describe_entry p = described p p.port p.icmp_type p.protocol_number

unfoldable pub describe : List ProtocolEntry → String
unfolding describe_entry
describe ps = join ", " (map describe_entry ps)
