-- ===== src/Validator/Run/Verdicts.antt =====
-- validator.go, Validate: what holds of a configuration in which it finds no error.
use songbird_prototypes.Prelude.{ℕ, String, ◌≡◌, refl, Bool, true, List, [], contains}
use mathlib.Core.List.{Memᴰ}
use songbird_prototypes.Model.Types.{Object, ZoneSpec}
use songbird_prototypes.Model.Objects.{name_of}
use songbird_prototypes.Model.Tree.{Tree, Doc}
use songbird_prototypes.Model.Edits.{each}
use songbird_prototypes.Model.Lookups.{zone_of}
use songbird_prototypes.Netip.{Texts}
use songbird_prototypes.Predefined.{Shipped}
use songbird_prototypes.Validator.Errors.{errors}
use songbird_prototypes.Validator.Checks.{Env}
use songbird_prototypes.Validator.Checks.Passing.{
  Passes, Passes-any, Passes-bind, Passes-first, Passes-second, Passes-weaken,
}
use songbird_prototypes.Validator.Names.{Registry, names}
use songbird_prototypes.Validator.Names.Unique.{NamesAreUnique, names-Passes}
use songbird_prototypes.Validator.Globals.{users}
use songbird_prototypes.Validator.Globals.Admins.{HasAdmin, users-Passes}
use songbird_prototypes.Validator.Network.{zones}
use songbird_prototypes.Validator.Network.ZoneMembers.{AreSeparate, zones-Passes, zone_in-eq}
use songbird_prototypes.Validator.Groups.{groups}
use songbird_prototypes.Validator.Groups.Acyclic.{IsAcyclic, groups-Passes}
use songbird_prototypes.Validator.RuleSets.Policies.{rule_sets}
use songbird_prototypes.Validator.RuleSets.Disjoint.{AreDisjointAfter}
use songbird_prototypes.Validator.RuleSets.Collected.{dnat_policies, rule_sets-Passes}
use songbird_prototypes.Validator.Run.{
  Issue, env_of, semantic, structural, checks, validate_with, validate,
}
use songbird_prototypes.Validator.Run.ErrorsFirst.{validate-Passes}

module _ (netip : Texts) (shipped : Shipped) (schema : Doc → List Issue)
    (line_of : Doc → String → ℕ) (t : Tree) where
  -- A result of `names`, or of a check that follows it.
  from_names :
      (P : Type 0) (appliance : Bool)
      → Passes (names t) (λ m. P)
      → Passes (checks netip shipped schema t appliance) (λ u. P)
  unfolding checks
  from_names P appliance p =
      Passes-bind (λ u. P) (λ m. P) _ _ (Passes-second _ (structural netip shipped schema t) _ p)
        (λ m h. Passes-weaken _ (λ u k. h) (Passes-any _))

  from_semantic :
      (P : Type 0) (appliance : Bool)
      → ((m : Registry) → Passes (semantic netip shipped schema (env_of t appliance m)) (λ u. P))
      → Passes (checks netip shipped schema t appliance) (λ u. P)
  unfolding checks
  from_semantic P appliance p = Passes-bind (λ u. P) (λ m. Unit {0}) _ _ (Passes-any _) (λ m h. p m)

  module _ (P : Type 0) (appliance : Bool) (m : Registry) where
    abbrev env : Env
    env = env_of t appliance m

    -- The parts of the sequence that the theorems speak of.
    zones_part : Passes (zones env) (λ u. P) → Passes (semantic netip shipped schema env) (λ u. P)
    unfolding semantic
    zones_part p =
        Passes-second _ _ _
          (Passes-second _ _ _ (Passes-second _ _ _ (Passes-first P (zones env) _ p)))

    groups_part : Passes (groups env) (λ u. P) → Passes (semantic netip shipped schema env) (λ u. P)
    unfolding semantic
    groups_part p = Passes-second _ _ _ (
        Passes-second _ _ _ (
          Passes-second _ _ _
            (Passes-second _ _ _ (Passes-second _ _ _ (Passes-first P (groups env) _ p)))))

    rule_sets_part :
        Passes (rule_sets netip env) (λ u. P) → Passes (semantic netip shipped schema env) (λ u. P)
    unfolding semantic
    rule_sets_part p = search (Passes-first, Passes-second, p) depth 13

    users_part : Passes (users env) (λ u. P) → Passes (semantic netip shipped schema env) (λ u. P)
    unfolding semantic
    users_part p = search (Passes-second, p) depth 13

  -- In a configuration for which `ValidateWith` reports no error, no two objects of one name space have
  -- the same name.
  pub validate-NamesAreUnique :
      (appliance : Bool)
      → errors (validate_with netip shipped schema line_of t appliance) ≡ []
      → NamesAreUnique (each t)
  validate-NamesAreUnique appliance h =
      validate-Passes netip shipped schema line_of t appliance (NamesAreUnique (each t)) h
        (from_names _ appliance (names-Passes t))

  -- In a configuration for which `ValidateWith` reports no error, a Zone that lists an Interface is the
  -- one that `ZoneOf` finds for it.
  pub validate-zone_of :
      (appliance : Bool) (z : Object ZoneSpec) (i : String)
      → errors (validate_with netip shipped schema line_of t appliance) ≡ []
      → Memᴰ z t.zones
      → contains z.spec.interfaces i ≡ true
      → zone_of t i ≡ name_of z
  unfolding zone_of env_of
  validate-zone_of appliance z i h m c =
      zone_in-eq t.zones z i
        (validate-Passes netip shipped schema line_of t appliance (AreSeparate t.zones) h (
          from_semantic (AreSeparate t.zones) appliance (λ r.
            zones_part (AreSeparate t.zones) appliance r (zones-Passes (env_of t appliance r)))))
        m c

  -- A configuration for which `Validate` reports no error has a User with the admin Role.
  pub validate-HasAdmin : errors (validate netip shipped schema line_of t) ≡ [] → HasAdmin t.users
  unfolding validate env_of
  validate-HasAdmin h = validate-Passes netip shipped schema line_of t true (HasAdmin t.users) h (
      from_semantic (HasAdmin t.users) true
        (λ r. users_part (HasAdmin t.users) true r (users-Passes (env_of t true r) refl)))

  -- In a configuration for which `ValidateWith` reports no error, no Address Group and no Service Group
  -- reaches itself by its members.
  pub validate-IsAcyclic :
      (appliance : Bool)
      → errors (validate_with netip shipped schema line_of t appliance) ≡ []
      → IsAcyclic t.address_groups × IsAcyclic t.service_groups
  unfolding env_of
  validate-IsAcyclic appliance h =
      let P : Type 0 = IsAcyclic t.address_groups × IsAcyclic t.service_groups in
      validate-Passes netip shipped schema line_of t appliance P h (
        from_semantic P appliance
          (λ r. groups_part P appliance r (groups-Passes (env_of t appliance r))))

  -- In a configuration for which `ValidateWith` reports no error, no packet (its incoming Interface, its
  -- address, protocol and port) is for two of the enabled dnat Policies that translate the address, as
  -- long as no Interface of their RuleSets has an empty name.
  pub validate-AreDisjoint :
      (appliance : Bool)
      → errors (validate_with netip shipped schema line_of t appliance) ≡ []
      → AreDisjointAfter [] (dnat_policies netip t t.rule_sets)
  unfolding env_of
  validate-AreDisjoint appliance h =
      let P : Type 0 = AreDisjointAfter [] (dnat_policies netip t t.rule_sets) in
      validate-Passes netip shipped schema line_of t appliance P h (
        from_semantic P appliance
          (λ r. rule_sets_part P appliance r (rule_sets-Passes netip (env_of t appliance r))))
