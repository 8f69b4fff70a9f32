-- ===== src/Model/Types.antt =====
-- PoC-webui-v2/internal/model/types.go: the configuration objects, one record per struct and one
-- field per property. A pointer is an `Option`; a string that may be omitted is "" when it is.
-- Numbers that the JSON schema bounds below by 0 or 1 (ports, distances, ids) are native numbers.

use songbird_prototypes.Prelude.{
  ℕ, String, Bool, true, false, not, Option, none, some, List, [], ◌∷◌, ◌==◌, eqb, if◌then◌else◌,
  concat,
}

pub record Meta : Type 0 where
  pub name : String
  pub uuid : String
  pub comment : String
  pub color : String
  pub category : String
  pub labels : List (String × String)

pub record Object {ℓ} (S : Type ℓ) : Type ℓ where
  pub api_version : String
  pub kind : String
  pub metadata : Meta
  pub spec : S

pub record ColorSpec : Type 0 where
  pub hex : String
  pub predefined : Bool

pub record Ipv4Config : Type 0 where
  pub mode : String  -- static, dhcp, none
  pub addresses : List String
  pub gateway : String

pub record RouterAdvertisement : Type 0 where
  pub enabled : Bool
  pub managed_flag : Option Bool
  pub other_config_flag : Option Bool
  pub delegated_prefix_from : String

pub record Ipv6Config : Type 0 where
  pub mode : String  -- static, slaac, dhcpv6-pd, none
  pub addresses : List String
  pub gateway : String
  pub router_advertisement : Option RouterAdvertisement

pub record InterfaceSpec : Type 0 where
  pub type : String  -- physical, vlan
  pub device : String
  pub parent : String
  pub vlan_id : ℕ
  pub enabled : Option Bool
  pub mtu : ℕ
  pub role : String
  pub allow_access : List String
  pub ipv4 : Option Ipv4Config
  pub ipv6 : Option Ipv6Config

-- `p == nil || *p`, for an optional flag that is on by default.
abbrev pub nil_or_true : Option Bool → Bool
nil_or_true none = true
nil_or_true (some b) = b

unfoldable pub interface_enabled : InterfaceSpec → Bool
interface_enabled s = nil_or_true s.enabled

unfoldable pub effective_role : InterfaceSpec → String
effective_role s = if s.role == "" then "internal" else s.role

addresses_of : Option Ipv4Config → List String
addresses_of none = []
addresses_of (some c) = if c.mode == "static" then c.addresses else []

-- The IPv4 prefixes of a static Interface.
unfoldable pub static_addresses : InterfaceSpec → List String
unfolding addresses_of
static_addresses s = addresses_of s.ipv4

pub record ZoneSpec : Type 0 where
  pub interfaces : List String
  pub intra_zone_traffic : String  -- allow, deny (default)

pub record AddressRange : Type 0 where
  pub start : String
  pub end : String

pub record AddressSpec : Type 0 where
  pub interface : String
  pub subnet : String
  pub range : Option AddressRange
  pub fqdn : String
  pub mac : String

pub record GroupSpec : Type 0 where
  pub members : List String

-- values.go: a single port has `lo` equal to `hi`; `lo > hi` is kept as read.
pub record PortRange : Type 0 where
  pub lo : ℕ
  pub hi : ℕ

pub record ProtocolEntry : Type 0 where
  pub protocol : String
  pub port : Option PortRange
  pub source_port : Option PortRange
  pub icmp_type : Option ℕ
  pub icmp_code : Option ℕ
  pub protocol_number : Option ℕ

pub record ServiceSpec : Type 0 where
  pub protocols : List ProtocolEntry

pub record Nat : Type 0 where
  pub type : String  -- snat, dnat
  pub translate_ip_to : String
  pub translate_service_to : String

-- A Policy of the domain model; its position in the RuleSet is its priority.
pub record Rule : Type 0 where
  pub name : String
  pub uuid : String
  pub comment : String
  pub enabled : Option Bool
  pub source : List String
  pub destination : List String
  pub service : List String
  pub action : String  -- accept, drop
  pub log : String
  pub nat : Option Nat
  pub schedule : String

unfoldable pub rule_enabled : Rule → Bool
rule_enabled r = nil_or_true r.enabled

pub record RuleSetSpec : Type 0 where
  pub from : String
  pub to : String
  pub rules : List Rule

-- Whether a source, destination or service list is ["any"].
unfoldable pub is_any : List String → Bool
is_any (x ∷ []) = x == "any"
is_any _ = false

pub record StaticRouteSpec : Type 0 where
  pub destination : String
  pub gateway : String
  pub interface : String
  pub distance : ℕ
  pub priority : ℕ

abbrev pub default_distance : ℕ
default_distance = 10

abbrev pub default_priority : ℕ
default_priority = 1

unfoldable pub preference : StaticRouteSpec → ℕ × ℕ
preference s = (
  if eqb s.distance 0 then default_distance else s.distance,
  if eqb s.priority 0 then default_priority else s.priority,
)

pub record DhcpReservation : Type 0 where
  pub mac : String
  pub ip : String
  pub host : String

pub record DhcpServerSpec : Type 0 where
  pub interface : String
  pub enabled : Bool
  pub range_start : String
  pub range_end : String
  pub gateway : String
  pub dns_servers : List String
  pub lease_time : String
  pub reservations : List DhcpReservation

pub record UserSpec : Type 0 where
  pub role : String  -- admin, read-only
  pub password_hash : String

-- The alternative that an Address uses, in the order of the source's switch.
unfoldable pub form : AddressSpec → String
form s = if not (s.subnet == "") then "subnet" else elim (s.range) [
  | some r ↦ "range"
  | none ↦ if not (s.fqdn == "") then "fqdn" else if not (s.mac == "") then "mac" else ""
]

value_of_range : Option AddressRange → String
value_of_range none = ""
value_of_range (some r) = concat (r.start ∷ "-" ∷ r.end ∷ [])

-- An Address as text.
unfoldable pub address_value : AddressSpec → String
unfolding form value_of_range
address_value s =
    let f = form s in
    if f == "subnet"
    then s.subnet
    else if f == "range"
    then value_of_range s.range
    else if f == "fqdn"
    then s.fqdn
    else if f == "mac"
    then s.mac
    else ""
