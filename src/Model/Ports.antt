-- ===== src/Model/Ports.antt =====
-- PoC-webui-v2/internal/model/values.go: a PortRange as text and as the value of a YAML or JSON field.
-- Ports are not negative here, which the JSON schema demands of a port.
pub mod RoundTrip
use songbird_prototypes.Prelude.{
  ℕ, String, Bool, ◌&&◌, Option, none, some, List, [], ◌∷◌, leb, eqb, if◌then◌else◌, length, concat,
  decimal,
}
use songbird_prototypes.Model.Types.{PortRange}
use songbird_prototypes.Model.Durations.{codes, span_digits, atoi}

unfoldable pub single : PortRange → Bool
single p = eqb p.lo p.hi

unfoldable pub port_text : PortRange → String
unfolding single
port_text p = if single p then decimal p.lo else concat (decimal p.lo ∷ "-" ∷ decimal p.hi ∷ [])

-- One group `([0-9]{1,5})` of the pattern, and what follows it.
unfoldable pub port_digits : List ℕ × List ℕ → Option (ℕ × List ℕ)
port_digits (ds, rest) =
    if leb 1 (length ds) && leb (length ds) 5 then some (atoi ds, rest) else none

unfoldable pub range_end : ℕ → Option (ℕ × List ℕ) → Option PortRange
range_end lo none = none
range_end lo (some (hi, [])) = some (record { lo = lo; hi = hi })
range_end lo (some (hi, c ∷ rest)) = none

unfoldable pub range_start : Option (ℕ × List ℕ) → Option PortRange
range_start none = none
range_start (some (lo, [])) = none
range_start (some (lo, c ∷ rest)) =
    if eqb c b'-' then range_end lo (port_digits (span_digits rest)) else none

-- The pattern, and the numbers of its two groups.
unfoldable pub parse_port_string : String → Option PortRange
parse_port_string s = range_start (port_digits (span_digits (codes s)))

-- A field in YAML or JSON: a number, or a text.
pub data PortValue : Type 0 where
  number : ℕ → PortValue
  text : String → PortValue

unfoldable pub marshal : PortRange → PortValue
unfolding single
marshal p = if single p then number p.lo else text (port_text p)

unfoldable pub unmarshal : PortValue → Option PortRange
unmarshal (number n) = some (record { lo = n; hi = n })
unmarshal (text s) = parse_port_string s
