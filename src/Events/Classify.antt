-- ===== src/Events/Classify.antt =====
-- PoC-webui-v2/internal/events/classify.go: the reference classifier of the forwarding path. A loop
-- that returns from its middle gives an Option, none when it runs to its end.
pub mod Firsts
pub mod Policies
pub mod Dnat
pub mod Candidates
pub mod Accepted
use songbird_prototypes.Prelude.{
  ℕ, String, Bool, true, false, ◌&&◌, ◌||◌, not, Option, none, some, List, [], ◌∷◌, ◌==◌, leb,
  if◌then◌else◌, any, contains, concat, decimal,
}
use songbird_prototypes.Model.Types.{
  Object, AddressSpec, ServiceSpec, ProtocolEntry, PortRange, Rule, RuleSetSpec, Nat, is_any,
  rule_enabled, static_addresses,
}
use songbird_prototypes.Model.Objects.{name_of}
use songbird_prototypes.Model.Tree.{Tree}
use songbird_prototypes.Model.Lookups.{
  expand_addresses, expand_services, side, zone_of, zone_named, interface_named, service_named,
}
use songbird_prototypes.Netip.{Addr, Texts, masked, includes, less}
use songbird_prototypes.Events.Routes.{route}

pub record Flow : Type 0 where
  pub in_if : String
  pub src : Addr
  pub dst : Addr
  pub proto : String  -- tcp, udp, icmp
  pub dport : ℕ

pub record Verdict : Type 0 where
  pub action : String  -- accept, drop
  pub reason : String
  pub out_if : String
  pub rule_set : String
  pub policy : String
  pub nat : Option Nat
  pub xdst : String  -- ip:port after DNAT
  pub xsrc : String  -- ip after SNAT

abbrev pub to_interface : String → Verdict
to_interface out = record {
  action = "";
  reason = "";
  out_if = out;
  rule_set = "";
  policy = "";
  nat = none;
  xdst = "";
  xsrc = "";
}

abbrev pub dropped : String → Verdict → Verdict
dropped why v = record v { action = "drop"; reason = why }

-- A port is in the range, and every port if there is none.
unfoldable pub port_in : Option PortRange → ℕ → Bool
port_in none port = true
port_in (some r) port = leb r.lo port && leb port r.hi

unfoldable pub in_services : Tree → List String → String → ℕ → Bool
in_services t refs proto port =
    is_any refs
    || any
        (λ r.
          any
            (λ (s : Object ServiceSpec).
              any (λ (p : ProtocolEntry). (p.protocol == proto) && port_in p.port port)
                s.spec.protocols)
            (expand_services t r))
        refs

abbrev pub is_dnat : Rule → Bool
is_dnat r = elim (r.nat) [ none ↦ false | some n ↦ n.type == "dnat" ]

-- The RuleSet of an ordered pair of Interfaces.
unfoldable pub governing_in :
    Tree → String → String → List (Object RuleSetSpec) → Option (Object RuleSetSpec)
governing_in t in_if out [] = none
governing_in t in_if out (rs ∷ rest) =
    if contains (side t rs.spec.from) in_if && contains (side t rs.spec.to) out
    then some rs
    else governing_in t in_if out rest

unfoldable pub governing : Tree → String → String → Option (Object RuleSetSpec)
governing t in_if out = governing_in t in_if out t.rule_sets

-- The port that a DNAT rule translates to.
unfoldable pub translated_port : Tree → Nat → ℕ → ℕ
translated_port t n port =
    if n.translate_service_to == "" then port else elim (service_named t n.translate_service_to) [
      | none ↦ port
      | some s ↦ elim (s.spec.protocols) [
        | [] ↦ port
        | p ∷ rest ↦ elim rest [ [] ↦ elim (p.port) [ none ↦ port | some r ↦ r.lo ] | _ ∷ _ ↦ port ]
      ]
    ]

-- A Flow between two Interfaces of one Zone, for which no RuleSet governs.
unfoldable pub intra_zone : Tree → Flow → Verdict → Verdict
intra_zone t f v =
    let z = zone_of t f.in_if in
    if not (z == "") && (z == zone_of t v.out_if)
    then elim (zone_named t z) [
      | none ↦ dropped "no-ruleset" v
      | some zone ↦
          if zone.spec.intra_zone_traffic == "allow"
          then record v { action = "accept"; reason = "intra-zone" }
          else dropped "no-ruleset" v
    ]
    else dropped "no-ruleset" v

module _ (netip : Texts) where
  unfoldable pub addr_contains : AddressSpec → Addr → Bool
  addr_contains a ip =
      if not (a.subnet == "")
      then elim (netip.parse_prefix a.subnet) [ none ↦ false | some p ↦ includes (masked p) ip ]
      else elim (a.range) [
        | none ↦ false
        | some r ↦ elim (netip.parse_addr r.start) [
          | none ↦ false
          | some s ↦ elim (netip.parse_addr r.end) [
            | none ↦ false
            | some e ↦ not (less ip s) && not (less e ip)
          ]
        ]
      ]

  unfoldable pub in_addresses : Tree → List String → Addr → Bool
  in_addresses t refs ip =
      is_any refs
      || any (λ r. any (λ (a : Object AddressSpec). addr_contains a.spec ip) (expand_addresses t r))
          refs

  unfoldable pub matches : Tree → Rule → Flow → Bool
  matches t r f =
      rule_enabled r
      && in_addresses t r.source f.src
      && in_addresses t r.destination f.dst
      && in_services t r.service f.proto f.dport

  unfoldable pub ip_of : AddressSpec → Option Addr
  ip_of a =
      if not (a.subnet == "")
      then elim (netip.parse_prefix a.subnet) [ none ↦ none | some p ↦ some p.addr ]
      else elim (a.range) [ none ↦ none | some r ↦ netip.parse_addr r.start ]

  unfoldable pub first_of : List (Object AddressSpec) → Option Addr
  first_of [] = none
  first_of (a ∷ rest) =
      let later = first_of rest in elim (ip_of a.spec) [ some ip ↦ some ip | none ↦ later ]

  unfoldable pub first_ip : Tree → String → Option Addr
  first_ip t ref = first_of (expand_addresses t ref)

  unfoldable pub first_prefix : List String → Option Addr
  first_prefix [] = none
  first_prefix (a ∷ rest) =
      let later = first_prefix rest in
      elim (netip.parse_prefix a) [ some p ↦ some p.addr | none ↦ later ]

  unfoldable pub interface_ip : Tree → String → Option Addr
  interface_ip t name = elim (interface_named t name) [
    | none ↦ none
    | some i ↦ first_prefix (static_addresses i.spec)
  ]

  -- A candidate has met its RuleSet: the first rule that matches decides.
  unfoldable pub dnat_decides : Tree → Flow → Rule → Verdict → List Rule → Option Verdict
  dnat_decides t f r v [] = none
  dnat_decides t f r v (e ∷ rest) =
      let v' = record v { policy = e.name } in
      if not (matches t e f)
      then dnat_decides t f r v rest
      else if e.name == r.name
      then some (record v' { action = "accept"; reason = "policy"; nat = r.nat })
      else if e.action == "drop"
      then some (dropped "policy" (record v' { xdst = "" }))
      else some (dropped "dnat-shadowed" (record v' { xdst = "" }))

  abbrev pub dnat_verdict : Tree → Flow → Nat → Addr → Verdict
  dnat_verdict t f n to = record (to_interface (route netip to t)) {
    xdst = concat (netip.text to ∷ ":" ∷ decimal (translated_port t n f.dport) ∷ []);
  }

  -- One DNAT candidate, with the address that it translates to.
  unfoldable pub dnat_candidate :
      Tree → Flow → Object RuleSetSpec → Rule → Nat → Option Addr → Option Verdict
  dnat_candidate t f rs r n none = none
  dnat_candidate t f rs r n (some to) =
      let v = record (dnat_verdict t f n to) { rule_set = name_of rs } in
      elim (governing t f.in_if v.out_if) [
        | none ↦ some (dropped "dnat-route-mismatch" v)
        | some gov ↦
            if name_of gov == name_of rs
            then dnat_decides t f r v rs.spec.rules
            else some (dropped "dnat-route-mismatch" v)
      ]

  unfoldable pub dnat_rule : Tree → Flow → Object RuleSetSpec → Rule → Option Nat → Option Verdict
  dnat_rule t f rs r none = none
  dnat_rule t f rs r (some n) =
      if not (n.type == "dnat") || not (matches t r f)
      then none
      else dnat_candidate t f rs r n (first_ip t n.translate_ip_to)

  unfoldable pub dnat_rules : Tree → Flow → Object RuleSetSpec → List Rule → Option Verdict
  dnat_rules t f rs [] = none
  dnat_rules t f rs (r ∷ rest) =
      let later = dnat_rules t f rs rest in
      elim (dnat_rule t f rs r r.nat) [ some v ↦ some v | none ↦ later ]

  unfoldable pub dnat_sets : Tree → Flow → List (Object RuleSetSpec) → Option Verdict
  dnat_sets t f [] = none
  dnat_sets t f (rs ∷ rest) =
      let later = dnat_sets t f rest in
      if contains (side t rs.spec.from) f.in_if
      then elim (dnat_rules t f rs rs.spec.rules) [ some v ↦ some v | none ↦ later ]
      else later

  -- The source address of an accepted Flow: a fixed one, or that of the Interface.
  unfoldable pub snat : Tree → Option Nat → Verdict → Verdict
  snat t none v = v
  snat t (some n) v =
      if not (n.type == "snat")
      then v
      else (let v' = record v { nat = some n } in
          elim (if n.translate_ip_to == ""
            then interface_ip t v.out_if
            else first_ip t n.translate_ip_to) [
              | none ↦ v'
              | some ip ↦ record v' { xsrc = netip.text ip }
            ])

  -- The first match in the RuleSet of the pair, Default Deny if there is none.
  unfoldable pub first_match : Tree → Flow → Verdict → List Rule → Verdict
  first_match t f v [] = dropped "default-deny" v
  first_match t f v (r ∷ rest) =
      let later = first_match t f v rest in
      let v' = record v { policy = r.name; action = r.action; reason = "policy" } in
      if is_dnat r || not (matches t r f)
      then later
      else if r.action == "accept"
      then snat t r.nat v'
      else v'

  unfoldable pub forward : Tree → Flow → Verdict → Option (Object RuleSetSpec) → Verdict
  forward t f v none = intra_zone t f v
  forward t f v (some rs) = first_match t f (record v { rule_set = name_of rs }) rs.spec.rules

  -- The verdict of a new forwarded Flow: the DNAT candidates, then the RuleSet of the route's pair.
  unfoldable pub classify : Tree → Flow → Verdict
  classify t f = elim (dnat_sets t f t.rule_sets) [
    | some v ↦ v
    | none ↦
        let v = to_interface (route netip f.dst t) in
        if (v.out_if == "") || (v.out_if == f.in_if)
        then dropped "no-ruleset" v
        else forward t f v (governing t f.in_if v.out_if)
  ]
