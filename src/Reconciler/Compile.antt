-- ===== src/Reconciler/Compile.antt =====
-- PoC-webui-v2/internal/reconciler/compile.go: the simulated Compiler, one section for each driver. The
-- JSON text of a Service and the hash of a section are arguments. Maps are lists in the order in which
-- they are filled; JSON sorts their keys, which is left to the hash.
pub mod Metadata
pub mod Unseen
use songbird_prototypes.Prelude.{
  ℕ, ◌+◌, ◌*◌, max, String, Bool, false, ◌&&◌, ◌||◌, not, Option, none, some, List, [], ◌∷◌, ◌++◌,
  map, ◌==◌, if◌then◌else◌, length, contains, concat, join, sort_texts, decimal,
}
use songbird_prototypes.Model.Types.{
  Object, InterfaceSpec, ZoneSpec, StaticRouteSpec, DhcpServerSpec, AddressSpec, ServiceSpec,
  ProtocolEntry, Rule, RuleSetSpec, Nat, is_any, rule_enabled, interface_enabled, static_addresses,
  address_value, nil_or_true,
}
use songbird_prototypes.Model.System.{
  SystemSpec, Admin, Dns, Ntp, Logging, SessionSettings, ThreatFeed, ThreatFeeds, https_port,
  threat_feeds_on,
}
use songbird_prototypes.Model.Objects.{name_of}
use songbird_prototypes.Model.Tree.{Tree}
use songbird_prototypes.Model.Edits.{sys}
use songbird_prototypes.Model.Lookups.{side, expand_addresses, expand_services}
use songbird_prototypes.Reconciler.{PlanSummary}

pub record Link : Type 0 where
  pub name : String
  pub spec : InterfaceSpec
  pub enabled : Bool

pub record Entry : Type 0 where
  pub rule : String
  pub action : String
  pub log : String
  pub nat : Option Nat
  pub source : List String
  pub destination : List String
  pub service : List String

pub record CompiledSet : Type 0 where
  pub name : String
  pub pairs : List (String × String)
  pub rules : List Entry

pub record DataPlane : Type 0 where
  pub sets : List CompiledSet
  pub local_in : List (String × List String)
  pub intra_zone : List (String × String)
  pub trusted : List String
  pub https_port : ℕ
  pub session : Option SessionSettings
  pub logging : Option Logging
  pub feeds : List String
  pub addresses : List (String × List String)

-- What is hashed for each driver. A set of Interfaces is none where the source has a nil map.
pub data Section : Type 0 where
  network : List Link → List StaticRouteSpec → Section
  dataplane : DataPlane → Section
  dhcp : List DhcpServerSpec → Section
  dns :
      Option Dns
      → Option Ntp
      → Option (List String)
      → Option (List String)
      → List (String × List String)
      → Section

-- `slices.Compact`.
drop_same : String → List String → List String
drop_same s [] = s ∷ []
drop_same s (t ∷ ts) = let rest = drop_same t ts in if s == t then rest else s ∷ rest

compact : List String → List String
unfolding drop_same
compact [] = []
compact (s ∷ ss) = drop_same s ss

-- `fmt.Sprint` of a list.
abbrev pub printed : List String → String
printed l = concat ("[" ∷ join " " l ∷ "]" ∷ [])

-- IPv6 is never applied.
link_of : Object InterfaceSpec → Link
link_of i =
    let s = record (i.spec) { ipv6 = none } in
    record { name = name_of i; spec = s; enabled = interface_enabled s }

-- `out[i] = true`.
add_name : List String → String → List String
add_name l i = if contains l i then l else l ++ i ∷ []

add_names : List String → List String → List String
unfolding add_name
add_names l [] = l
add_names l (i ∷ is) = add_names (add_name l i) is

served_from : Tree → List String → List String → List String
unfolding add_names
served_from t l [] = l
served_from t l (r ∷ rs) = served_from t (add_names l (side t r)) rs

unfoldable pub served : Tree → List String → List String
unfolding served_from
served t refs = served_from t [] refs

dns_on : Tree → Option Dns → Option (List String)
dns_on t none = none
dns_on t (some d) = some (served t d.serve_to_interfaces)

ntp_on : Tree → Option Ntp → Option (List String)
ntp_on t none = none
ntp_on t (some n) = if n.enabled then some (served t n.serve_to_interfaces) else none

dhcp_on : List (Object DhcpServerSpec) → List String
dhcp_on [] = []
dhcp_on (d ∷ ds) = let rest = dhcp_on ds in if d.spec.enabled then d.spec.interface ∷ rest else rest

abbrev is_on : String → Option (List String) → Bool
is_on n none = false
is_on n (some l) = contains l n

unless : Bool → String → List String
unless b s = if b then [] else s ∷ []

access : SystemSpec → String → String
access s a = if a == "https" then concat ("https(tcp/" ∷ decimal (https_port s) ∷ ")" ∷ []) else a

-- The services open on an Interface: those allowed, and the ports of what the firewall serves there.
open_services :
    SystemSpec
    → List String
    → Option (List String)
    → Option (List String)
    → Object InterfaceSpec
    → String × List String
unfolding unless access
open_services s dhcp_set dns_set ntp_set i =
    let n = name_of i in
    let has = contains i.spec.allow_access in
    (
      n,
      map (access s) i.spec.allow_access
          ++ unless (not (contains dhcp_set n) || has "dhcp") "dhcp(udp/67, implicit DM-34)"
          ++ unless (not (is_on n dns_set) || has "dns") "dns(53, implicit DM-34)"
          ++ unless (not (is_on n ntp_set) || has "ntp") "ntp(udp/123, implicit DM-34)",
    )

unfoldable pub local_in : Tree → Object InterfaceSpec → String × List String
unfolding open_services dns_on ntp_on dhcp_on
local_in t =
    let s = sys t in open_services s (dhcp_on t.dhcp_servers) (dns_on t s.dns) (ntp_on t s.ntp)

abbrev values : List (Object AddressSpec) → List String
values l = map (λ a. address_value a.spec) l

-- The values of all the Addresses that references stand for.
unfoldable pub address_values : Tree → List String → List String
address_values t [] = []
address_values t (r ∷ rs) = values (expand_addresses t r) ++ address_values t rs

unfoldable pub trusted_hosts : Option Admin → List String
trusted_hosts none = []
trusted_hosts (some a) = a.trusted_hosts

unfoldable pub resolve_addresses : Tree → List String → List String
unfolding compact
resolve_addresses t refs =
    if is_any refs then "any" ∷ [] else compact (sort_texts (address_values t refs))

pairs_with : String → List String → List (String × String)
pairs_with f [] = []
pairs_with f (to ∷ tos) = let rest = pairs_with f tos in if f == to then rest else (f, to) ∷ rest

-- The ordered pairs of Interfaces of two sides.
unfoldable pub pairs_of : List String → List String → List (String × String)
unfolding pairs_with
pairs_of [] tos = []
pairs_of (f ∷ fs) tos = pairs_with f tos ++ pairs_of fs tos

pub record Counts : Type 0 where
  pub pairs : ℕ
  pub policies : ℕ
  pub disabled : ℕ
  pub match_entries : ℕ
  pub dnat_entries : ℕ

is_dnat : Option Nat → Bool
is_dnat none = false
is_dnat (some n) = n.type == "dnat"

module _ (json : List ProtocolEntry → String) (t : Tree) where
  service_texts : List String → List String
  service_texts [] = []
  service_texts (r ∷ rs) =
      map (λ (s : Object ServiceSpec). json s.spec.protocols) (expand_services t r)
      ++ service_texts rs

  unfoldable pub resolve_services : List String → List String
  unfolding compact service_texts
  resolve_services refs =
      if is_any refs then "any" ∷ [] else compact (sort_texts (service_texts refs))

  -- The target of a dnat Policy is resolved; any other NAT is kept as written.
  unfoldable pub compiled_nat : Option Nat → Option Nat
  compiled_nat none = none
  compiled_nat (some n) =
      if (n.type == "dnat") && not (n.translate_ip_to == "")
      then some (record {
        type = "dnat";
        translate_ip_to = printed (resolve_addresses t (n.translate_ip_to ∷ []));
        translate_service_to = printed (resolve_services (n.translate_service_to ∷ []));
      })
      else some n

  unfoldable pub compiled_rule : Rule → Entry
  compiled_rule r = record {
    rule = r.name;
    action = r.action;
    log = r.log;
    nat = compiled_nat r.nat;
    source = resolve_addresses t r.source;
    destination = resolve_addresses t r.destination;
    service = resolve_services r.service;
  }

  counted : ℕ → Rule → Counts → Counts
  unfolding is_dnat
  counted pairs r c =
      let e = compiled_rule r in
      record c {
        policies = c.policies + 1;
        match_entries =
            c.match_entries
            + length e.source * length e.destination * length e.service * max 1 pairs;
        dnat_entries =
            if is_dnat r.nat
            then c.dnat_entries + length e.destination * length e.service
            else c.dnat_entries;
      }

  unfoldable pub compiled_rules : List Rule → List Entry
  compiled_rules [] = []
  compiled_rules (r ∷ rs) =
      let rest = compiled_rules rs in if rule_enabled r then compiled_rule r ∷ rest else rest

  count_rule : ℕ → Rule → Counts → Counts
  unfolding counted
  count_rule pairs r c =
      if rule_enabled r then counted pairs r c else record c { disabled = c.disabled + 1 }

  count_rules : ℕ → List Rule → Counts → Counts
  unfolding count_rule
  count_rules pairs [] c = c
  count_rules pairs (r ∷ rs) c = count_rules pairs rs (count_rule pairs r c)

  unfoldable pub compiled_set : Object RuleSetSpec → CompiledSet
  compiled_set rs = record {
    name = name_of rs;
    pairs = pairs_of (side t rs.spec.from) (side t rs.spec.to);
    rules = compiled_rules rs.spec.rules;
  }

  count_set : Object RuleSetSpec → Counts → Counts
  unfolding count_rules
  count_set rs c =
      let n = length (pairs_of (side t rs.spec.from) (side t rs.spec.to)) in
      count_rules n rs.spec.rules (record c { pairs = c.pairs + n })

  unfoldable pub count_sets : List (Object RuleSetSpec) → Counts → Counts
  unfolding count_set
  count_sets [] c = c
  count_sets (rs ∷ rest) c = count_sets rest (count_set rs c)

zone_traffic : Object ZoneSpec → String × String
zone_traffic z =
    (name_of z, if z.spec.intra_zone_traffic == "" then "deny" else z.spec.intra_zone_traffic)

urls : List ThreatFeed → List String
urls [] = []
urls (f ∷ fs) = let rest = urls fs in if nil_or_true f.enabled then f.url ∷ rest else rest

feed_urls : Option ThreatFeeds → List String
unfolding urls
feed_urls none = []
feed_urls (some f) = urls f.sources

unfoldable pub interface_addresses : Tree → List (String × List String)
interface_addresses t = map (λ i. (name_of i, static_addresses i.spec)) t.interfaces

unfoldable pub dataplane_section : (List ProtocolEntry → String) → Tree → DataPlane
unfolding zone_traffic feed_urls trusted_hosts
dataplane_section json t =
    let s = sys t in
    record {
      sets = map (compiled_set json t) t.rule_sets;
      local_in = map (local_in t) t.interfaces;
      intra_zone = map zone_traffic t.zones;
      trusted = address_values t (trusted_hosts s.admin);
      https_port = https_port s;
      session = s.session;
      logging = s.logging;
      feeds = if threat_feeds_on s then feed_urls s.threat_feeds else [];
      addresses = interface_addresses t;
    }

unfoldable pub network_section : Tree → Section
unfolding link_of
network_section t = network (map link_of t.interfaces) (map (λ r. r.spec) t.static_routes)

unfoldable pub dhcp_section : Tree → Section
dhcp_section t = dhcp (map (λ d. d.spec) t.dhcp_servers)

unfoldable pub dns_section : Tree → Section
unfolding dns_on ntp_on
dns_section t =
    let s = sys t in dns s.dns s.ntp (dns_on t s.dns) (ntp_on t s.ntp) (interface_addresses t)

-- What each driver's section is made of.
unfoldable pub section_of : (List ProtocolEntry → String) → Tree → String → Option Section
section_of json t d =
    if d == "network"
    then some (network_section t)
    else if d == "dataplane"
    then some (dataplane (dataplane_section json t))
    else if d == "dhcp"
    then some (dhcp_section t)
    else if d == "dns"
    then some (dns_section t)
    else none

abbrev pub hashed : (Section → String) → Option Section → String
hashed hash none = ""
hashed hash (some s) = hash s

unfoldable pub compile : (List ProtocolEntry → String) → (Section → String) → Tree → PlanSummary
compile json hash t =
    let c =
      count_sets json t t.rule_sets
        (record { pairs = 0; policies = 0; disabled = 0; match_entries = 0; dnat_entries = 0 }) in
    record {
      rule_sets = length t.rule_sets;
      pairs = c.pairs;
      policies = c.policies;
      disabled = c.disabled;
      match_entries = c.match_entries;
      dnat_entries = c.dnat_entries;
      local_in = (dataplane_section json t).local_in;
      intra_zone = (dataplane_section json t).intra_zone;
      sections = λ d. hashed hash (section_of json t d);
    }
