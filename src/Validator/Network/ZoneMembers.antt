-- ===== src/Validator/Network/ZoneMembers.antt =====
-- validator.go, `zones`: when the check passes, the Zone of an Interface is the only one that lists it.
use songbird_prototypes.Prelude.{
  ℕ, ◌+◌, String, ◌≡◌, refl, sym, ◌∙◌, subst, inl, inr, true, false, Option, none, some, List, [],
  ◌∷◌, ◌++◌, arith, ◌==◌, eq_iff, Bool-cases, lookup, contains, contains-append,
}
use mathlib.Core.List.{Memᴰ}
use mathlib.Core.Bool.{true≢false}
use mathlib.Core.Option.{none-ne-some}
use songbird_prototypes.Model.Types.{Object, ZoneSpec}
use songbird_prototypes.Model.Objects.{name_of}
use songbird_prototypes.Model.Tree.{Doc, zone_doc}
use songbird_prototypes.Model.Lookups.{zone_in}
use songbird_prototypes.Validator.Checks.{Env, at, fold, fold_from, indexed}
use songbird_prototypes.Validator.Checks.Passing.{
  Passes, IsTarget, Passes-return, Passes-bind, Passes-second, Passes-weaken, Passes-given-err,
  Passes-err, Passes-ref,
}
use songbird_prototypes.Validator.Network.{join_zone, zone_member, zone_check, zones}

abbrev Zones : Type 0
Zones = List (String × String)

-- The Interfaces that a list of Zones names.
unfoldable pub memberships : List (Object ZoneSpec) → List String
memberships [] = []
memberships (z ∷ zs) = z.spec.interfaces ++ memberships zs

-- No Interface is in one of the Zones and in a later one.
abbrev pub AreSeparate : List (Object ZoneSpec) → Type 0
AreSeparate [] = Unit {0}
AreSeparate (z ∷ zs) =
    ((i : String) → contains z.spec.interfaces i ≡ true → contains (memberships zs) i ≡ false)
    × AreSeparate zs

abbrev AreFree : Zones → List String → Type 0
AreFree m is = (i : String) → contains is i ≡ true → lookup i m ≡ none

-- What is not in the map after some Interfaces joined a Zone.
abbrev Joined : Zones → List String → Zones → Type 0
Joined m is m' = (j : String) → lookup j m' ≡ none → (lookup j m ≡ none) × (contains is j ≡ false)

lookup_cons :
    (i z j : String) (m : Zones)
    → lookup j ((i, z) ∷ m) ≡ none
    → ((i == j) ≡ false) × (lookup j m ≡ none)
lookup_cons i z j m h = elim (Bool-cases (i == j)) [
  | inl e ↦ absurd (none-ne-some z (sym (rw e at h)))
  | inr e ↦ (e, rw e at h)
]

AreFree-cons :
    (i z : String) (is : List String) (m m₁ : Zones)
    → lookup i m ≡ none
    → m₁ ≡ (i, z) ∷ m
    → AreFree m₁ is
    → AreFree m (i ∷ is)
AreFree-cons i z is m m₁ free e frees j h = elim (Bool-cases (i == j)) [
  | inl same ↦ subst (λ x. lookup x m ≡ none) ((eq_iff i j).0 same) free
  | inr other ↦ (lookup_cons i z j m (subst (λ r. lookup j r ≡ none) e (frees j (rw other at h)))).1
]

Joined-cons :
    (i z : String) (is : List String) (m m₁ m₂ : Zones)
    → m₁ ≡ (i, z) ∷ m
    → Joined m₁ is m₂
    → Joined m (i ∷ is) m₂
Joined-cons i z is m m₁ m₂ e rest j h =
    let (old, out) = rest j h in
    let (ne, older) = lookup_cons i z j m (subst (λ r. lookup j r ≡ none) e old) in
    (older, rw (ne, out))

module _ (env : Env) where
  joined :
      (z path i : String) (o : Option Doc) (m : Zones)
      → IsTarget env.net_ns i ("Interface" ∷ []) o
      → Passes (join_zone env z path i o m) (λ m'. (lookup i m ≡ none) × (m' ≡ (i, z) ∷ m))
  unfolding join_zone IsTarget
  joined z path i none m (d, e, r, k) = absurd (none-ne-some d e)
  joined z path i (some o) m h =
      Passes-bind (λ m'. (lookup i m ≡ none) × (m' ≡ (i, z) ∷ m)) (λ u. lookup i m ≡ none) _ _
        (Passes-given-err (lookup i m) _ (λ other. Passes-err (λ u. some other ≡ none) _ _ _ _))
        (λ u free.
          Passes-return (λ m'. (lookup i m ≡ none) × (m' ≡ (i, z) ∷ m)) ((i, z) ∷ m) (free, refl))

  member-Passes :
      (z : String) (k : ℕ) (i : String) (m : Zones)
      → Passes (zone_member env z k i m) (λ m'. (lookup i m ≡ none) × (m' ≡ (i, z) ∷ m))
  unfolding zone_member
  member-Passes z k i m =
      Passes-bind _ (IsTarget env.net_ns i ("Interface" ∷ [])) _ _
        (Passes-ref env.net_ns i (indexed "spec.interfaces" k) ("Interface" ∷ []))
        (λ o h. joined z (indexed "spec.interfaces" k) i o m h)

  members-Passes :
      (z : String) (k : ℕ) (is : List String) (m : Zones)
      → Passes (fold_from k is (zone_member env z) m) (λ m'. AreFree m is × Joined m is m')
  unfolding fold_from
  members-Passes z k [] m =
      Passes-return (λ m'. AreFree m [] × Joined m [] m') m (λ i h. cc, λ j h. (h, refl))
  members-Passes z k (i ∷ is) m =
      Passes-bind (λ m'. AreFree m (i ∷ is) × Joined m (i ∷ is) m')
        (λ m'. (lookup i m ≡ none) × (m' ≡ (i, z) ∷ m)) (zone_member env z k i m)
        (fold_from (k + 1) is (zone_member env z)) (member-Passes z k i m)
        (λ m₁ (free, e).
          Passes-weaken (fold_from (k + 1) is (zone_member env z) m₁)
            (λ m₂ (frees, rest).
              (AreFree-cons i z is m m₁ free e frees, Joined-cons i z is m m₁ m₂ e rest))
            (members-Passes z (k + 1) is m₁))

  check-Passes :
      (z : Object ZoneSpec) (m : Zones)
      → Passes
          (zone_check env z m)
          (λ m'. AreFree m z.spec.interfaces × Joined m z.spec.interfaces m')
  unfolding zone_check
  check-Passes z m =
      Passes-second _ (at (zone_doc z)) _ (members-Passes (name_of z) 0 z.spec.interfaces m)

  zones-fold :
      (zs : List (Object ZoneSpec)) (m : Zones)
      → Passes (fold zs (zone_check env) m) (λ m'. AreFree m (memberships zs) × AreSeparate zs)
  unfolding fold memberships
  zones-fold [] m = Passes-return (λ m'. AreFree m [] × Unit {0}) m (λ i h. cc, tt)
  zones-fold (z ∷ zs) m =
      Passes-bind (λ m'. AreFree m (memberships (z ∷ zs)) × AreSeparate (z ∷ zs))
        (λ m'. AreFree m z.spec.interfaces × Joined m z.spec.interfaces m') (zone_check env z m)
        (fold zs (zone_check env)) (check-Passes z m)
        (λ m₁ (free, joined).
          Passes-weaken (fold zs (zone_check env) m₁)
            (λ m₂ (frees, separate). (
              λ i h. elim (Bool-cases (contains z.spec.interfaces i)) [
                | inl here ↦ free i here
                | inr there ↦
                    (joined i (
                      frees i (
                        rw there at
                          (sym (contains-append z.spec.interfaces (memberships zs) i) ∙ h)))).0
              ],
              (
                λ i h. elim (Bool-cases (contains (memberships zs) i)) [
                  | inl again ↦ absurd (true≢false (sym h ∙ (joined i (frees i again)).1))
                  | inr none_left ↦ none_left
                ],
                separate,
              ),
            ))
            (zones-fold zs m₁))

  pub zones-Passes : Passes (zones env) (λ u. AreSeparate env.t.zones)
  unfolding zones
  zones-Passes =
      Passes-bind _ (λ m. AreSeparate env.t.zones) _ _
        (Passes-weaken _ (λ m h. h.1) (zones-fold env.t.zones [])) (λ m h. Passes-return _ tt h)

in_memberships :
    (zs : List (Object ZoneSpec)) (z : Object ZoneSpec) (i : String)
    → Memᴰ z zs
    → contains z.spec.interfaces i ≡ true
    → contains (memberships zs) i ≡ true
unfolding memberships
in_memberships [] z i m h = elim m [ ]
in_memberships (x ∷ zs) z i (Memᴰ.head e) h =
    rw (contains-append x.spec.interfaces (memberships zs) i, sym e, h)
in_memberships (x ∷ zs) z i (Memᴰ.tail m) h =
    rw (contains-append x.spec.interfaces (memberships zs) i, in_memberships zs z i m h)
      (ground arith)

-- The first Zone that lists an Interface is any Zone that does.
pub zone_in-eq :
    (zs : List (Object ZoneSpec)) (z : Object ZoneSpec) (i : String)
    → AreSeparate zs
    → Memᴰ z zs
    → contains z.spec.interfaces i ≡ true
    → zone_in zs i ≡ name_of z
unfolding zone_in
zone_in-eq [] z i s m h = elim m [ ]
zone_in-eq (x ∷ zs) z i (apart, rest) (Memᴰ.head e) h = rw (sym e, h) refl
zone_in-eq (x ∷ zs) z i (apart, rest) (Memᴰ.tail m) h =
    elim (Bool-cases (contains x.spec.interfaces i)) [
      | inl first ↦ absurd (true≢false (sym (in_memberships zs z i m h) ∙ apart i first))
      | inr later ↦ rw later (zone_in-eq zs z i rest m h)
    ]
