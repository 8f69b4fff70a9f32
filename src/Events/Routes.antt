-- ===== src/Events/Routes.antt =====
-- PoC-webui-v2/internal/events/classify.go, `Route`: the route lookup of the simulated Data Plane.
pub mod Choice
pub mod Longest
use songbird_prototypes.Prelude.{
  ℕ, String, Bool, true, false, ◌&&◌, ◌||◌, Option, none, some, List, [], ◌∷◌, ltb, eqb,
  if◌then◌else◌,
}
use songbird_prototypes.Model.Types.{
  Object, InterfaceSpec, StaticRouteSpec, interface_enabled, static_addresses, preference,
}
use songbird_prototypes.Model.Objects.{name_of}
use songbird_prototypes.Model.Tree.{Tree}
use songbird_prototypes.Netip.{Addr, Prefix, Texts, masked, includes}

-- The loop's variables; no prefix yet is the number -1 of the source.
pub record Best : Type 0 where
  pub best : String
  pub bits : Option ℕ
  pub best_pref : ℕ × ℕ

abbrev pub no_route : Best
no_route = record { best = ""; bits = none; best_pref = (0, 0) }

abbrev pub longer : ℕ → Option ℕ → Bool
longer n none = true
longer n (some b) = ltb b n

abbrev pub as_long : ℕ → Option ℕ → Bool
as_long n none = false
as_long n (some b) = eqb n b

abbrev pub preferred : ℕ × ℕ → ℕ × ℕ → Bool
preferred (d, pr) (d', pr') = ltb d d' || (eqb d d' && ltb pr pr')

module _ (netip : Texts) (dst : Addr) where
  -- The prefix of a text, if it has one that contains the destination.
  unfoldable pub matching : String → Option Prefix
  matching s = elim (netip.parse_prefix s) [
    | none ↦ none
    | some p ↦ if includes (masked p) dst then some p else none
  ]

  unfoldable pub consider : String → Option Prefix → Best → Best
  consider name none b = b
  consider name (some p) b =
      if longer p.bits b.bits then record b { best = name; bits = some p.bits } else b

  unfoldable pub consider_addresses : String → List String → Best → Best
  consider_addresses name [] b = b
  consider_addresses name (a ∷ rest) b = consider_addresses name rest (consider name (matching a) b)

  unfoldable pub connected : List (Object InterfaceSpec) → Best → Best
  connected [] b = b
  connected (i ∷ rest) b = connected rest (
      if interface_enabled i.spec
      then consider_addresses (name_of i) (static_addresses i.spec) b
      else b)

  unfoldable pub consider_route : StaticRouteSpec → Option Prefix → Best → Best
  consider_route r none b = b
  consider_route r (some p) b =
      let pref = preference r in
      if longer p.bits b.bits
      then record { best = r.interface; bits = some p.bits; best_pref = pref }
      else if as_long p.bits b.bits && preferred pref b.best_pref
      then record b { best = r.interface; best_pref = pref }
      else b

  unfoldable pub statics : List (Object StaticRouteSpec) → Best → Best
  statics [] b = b
  statics (r ∷ rest) b = statics rest (consider_route r.spec (matching r.spec.destination) b)

  unfoldable pub route : Tree → String
  route t = (statics t.static_routes (connected t.interfaces no_route)).best
