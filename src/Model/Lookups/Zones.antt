-- ===== src/Model/Lookups/Zones.antt =====
-- tree.go, `ZoneOf` and `Side`: the Zone of an Interface, expanded, contains the Interface.
use songbird_prototypes.Prelude.{
  String, ◌≡◌, refl, sym, subst, ◌≢◌, inl, inr, true, false, some, List, [], ◌∷◌, arith, ◌==◌,
  eq_iff, eq_refl, Bool-cases, contains,
}
use songbird_prototypes.Model.Types.{Object, ZoneSpec}
use songbird_prototypes.Model.Objects.{name_of, find}
use songbird_prototypes.Model.Tree.{Tree}
use songbird_prototypes.Model.Objects.Laws.{IsUnique, find_of_not-contains}
use songbird_prototypes.Model.Lookups.{zone_in, zone_of, zone_named, side}

zone_in-found :
    (zs : List (Object ZoneSpec)) (i : String)
    → IsUnique zs
    → zone_in zs i ≢ ""
    → (z : Object ZoneSpec) × (find (zone_in zs i) zs ≡ some z)
      × (contains z.spec.interfaces i ≡ true)
unfolding zone_in find
zone_in-found [] i u h = absurd (h refl)
zone_in-found (z ∷ zs) i u h = elim (Bool-cases (contains z.spec.interfaces i)) [
  | inl e ↦ (z, rw (e, eq_refl), e)
  | inr e ↦
      let (z', found, c) = zone_in-found zs i u.1 (rw (e, zone_in) at h) in
      let skips : (name_of z == zone_in zs i) ≡ false =
        ground (arith, eq_iff (name_of z) (zone_in zs i), find_of_not-contains zs (zone_in zs i)) in
      let later : zone_in (z ∷ zs) i ≡ zone_in zs i = rw (e, zone_in) in
      (z', subst (λ y. find y (z ∷ zs) ≡ some z') (sym later) (rw (skips, find) found), c)
]

-- An Interface that belongs to a Zone is on the side that the Zone stands for, where the names of the Zones are unique.
pub side-zone_of :
    (t : Tree) (i : String)
    → IsUnique t.zones
    → zone_of t i ≢ ""
    → contains (side t (zone_of t i)) i ≡ true
unfolding zone_of side zone_named
side-zone_of t i u h = let (z, e, c) = zone_in-found t.zones i u h in rw (e, side) c
