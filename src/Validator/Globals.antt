-- ===== src/Validator/Globals.antt =====
-- PoC-webui-v2/internal/validator/validator.go: the checks of the System object, of the Colors, and of
-- the Users.
pub mod Admins
use songbird_prototypes.Prelude.{
  ℕ, String, Bool, true, false, ◌&&◌, ◌||◌, not, Option, none, some, List, [], ◌∷◌, map, ◌==◌, ltb,
  if◌then◌else◌, is_empty, lookup, contains, concat, join, quoted, to_lower,
}
use songbird_prototypes.Model.Types.{Object, ColorSpec, UserSpec}
use songbird_prototypes.Model.System.{SystemSpec, Dns}
use songbird_prototypes.Model.Objects.{name_of}
use songbird_prototypes.Model.Tree.{Doc, system_doc, color_doc, header, file_path}
use songbird_prototypes.Model.Edits.{each}
use songbird_prototypes.Predefined.{Shipped, color_hex, palette_names}
use songbird_prototypes.Validator.Checks.{
  Env, Check, return, ◌>>=◌, ◌>>◌, done, at, at_file, err, warn, when, given, for, for_from, fold,
  indexed, ref,
}

unfoldable pub has_admin : List (Object UserSpec) → Bool
has_admin [] = false
has_admin (u ∷ us) = (u.spec.role == "admin") || has_admin us

module _ (env : Env) where
  -- The references of a list.
  unfoldable pub refer_all :
      List (String × Doc) → List String → String → List String → Check (Unit {0})
  refer_all ns names path kinds =
      for_from 0 names (λ k n. ref ns n (indexed path k) kinds >>= λ o. done)

  abbrev is_set : Option Bool → Bool
  is_set none = false
  is_set (some b) = b

  abbrev nat64_on : SystemSpec → Bool
  nat64_on s = elim (s.nat64) [ none ↦ false | some n ↦ n.enabled ]

  dns_check : SystemSpec → Dns → Check (Unit {0})
  dns_check s d = do
    refer_all env.net_ns d.serve_to_interfaces "spec.dns.serveToInterfaces" []
    when (is_set d.dns64 && not (nat64_on s)) (
        err "dns64-without-nat64" "R-018.6" "spec.dns.dns64"
          "dns64 requires spec.nat64.enabled: true")
    when ((d.mode == "recursive") && not (is_empty d.upstreams)) (
        err "recursive-upstreams" "R-018.3" "spec.dns.upstreams"
          "upstreams are meaningless in recursive mode")

  system_object : ℕ → Object SystemSpec → Check (Unit {0})
  unfolding dns_check
  system_object i o = do
    at (system_doc o)
    when (ltb 0 i)
        (err "system-singleton" "schema §11" "metadata.name" "only one System object is allowed")
    given o.spec.admin (λ a.
        refer_all env.addr_ns a.trusted_hosts "spec.admin.trustedHosts"
          ("Address" ∷ "AddressGroup" ∷ []))
    given o.spec.ntp
        (λ n. refer_all env.net_ns n.serve_to_interfaces "spec.ntp.serveToInterfaces" [])
    given o.spec.dns (dns_check o.spec)
    given o.spec.logging (λ l. given l.anonymize_source_ip (λ a.
        refer_all env.net_ns a.interfaces "spec.logging.anonymizeSourceIp.interfaces"
          ("Interface" ∷ [])))
    when (nat64_on o.spec) (
        warn "ipv6-deferred" "R-057" "spec.nat64.enabled"
          "NAT64 is deferred (domain model v0.6 is IPv4 only): stored, not applied")

  systems : List (Object SystemSpec) → Check (Unit {0})
  systems [] = when env.appliance (
      at_file (file_path "System" "system")
      >> err "system-missing" "schema §11" "" "the System object (global settings) is required")
  systems (o ∷ os) = for_from 0 (o ∷ os) system_object

  unfoldable pub system : Check (Unit {0})
  unfolding systems system_object
  system = systems env.t.system

  unfoldable pub users : Check (Unit {0})
  unfolding has_admin
  users = when (env.appliance && not (has_admin env.t.users)) (
      at_file "users/"
      >> err "admin-required" "R-043.9" "" "at least one User with the admin Role is required")

module _ (shipped : Shipped) (env : Env) where
  shipped_color : Object ColorSpec → Option String → Check (Unit {0})
  shipped_color c none = when c.spec.predefined (
      err "predefined-unknown" "DM-21" "spec.predefined" (
        concat (
          quoted (name_of c)
          ∷ " is not in the shipped palette ["
          ∷ join " " (palette_names shipped)
          ∷ "]"
          ∷ [])))
  shipped_color c (some want) =
      if c.spec.predefined
      then when (not (to_lower want == to_lower c.spec.hex)) (
          err "predefined-hex" "R-055.1" "spec.hex" (
            concat (
              "predefined colour "
              ∷ quoted (name_of c)
              ∷ " must keep hex "
              ∷ want
              ∷ "; change its comment, or define a new Color"
              ∷ [])))
      else err "predefined-shadow" "DM-33" "spec.predefined" (
          concat (
            quoted (name_of c)
            ∷ " is a predefined colour name: set predefined: true or choose another name"
            ∷ []))

  -- `seen` is the map `seenHex`.
  color_check : Object ColorSpec → List (String × String) → Check (List (String × String))
  unfolding shipped_color
  color_check c seen = do
    at (color_doc c)
    given (lookup (to_lower c.spec.hex) seen) (λ other. err "duplicate-hex" "DM-33" "spec.hex" (
        concat (
          "hex "
          ∷ c.spec.hex
          ∷ " is already used by Color "
          ∷ quoted other
          ∷ " (two names for one colour defeat the classification)"
          ∷ [])))
    shipped_color c (color_hex shipped (name_of c))
    return ((to_lower c.spec.hex, name_of c) ∷ seen)

  missing_color : String → Check (Unit {0})
  missing_color n = when (not (contains (map name_of env.t.colors) n) && env.appliance) (
      at_file (file_path "Color" n)
      >> err "predefined-missing" "DM-21" ""
          (concat ("the predefined Color " ∷ quoted n ∷ " is missing" ∷ [])))

  color_reference : Doc → Check (Unit {0})
  color_reference o =
      let color = (header o).1.color in
      when (not (color == ""))
        (at o >> ref env.colors color "metadata.color" ("Color" ∷ []) >>= λ r. done)

  unfoldable pub colors_check : Check (Unit {0})
  unfolding color_check missing_color color_reference
  colors_check = do
    seen ← fold env.t.colors color_check []
    for (palette_names shipped) missing_color
    for (each env.t) color_reference
