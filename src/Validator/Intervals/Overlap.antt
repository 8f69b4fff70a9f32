-- ===== src/Validator/Intervals/Overlap.antt =====
-- sets.go, `overlaps`: two sets overlap exactly when they share a point.
use songbird_prototypes.Prelude.{
  ℕ, ◌≤◌, max, ◌≡◌, ◌↔◌, inl, inr, true, [], ◌∷◌, arith, Bool-cases, any,
}
use songbird_prototypes.Validator.Intervals.{
  Iv, Ivs, meets, overlaps, contains_point, covered, IsValid,
}

shared : Iv → Iv → ℕ
shared a b = max a.lo b.lo

meets_some :
    (a : Iv) (o : Ivs)
    → a.lo ≤ a.hi
    → IsValid o
    → any (meets a) o ≡ true
    → (p : ℕ) × (contains_point p a ≡ true) × (covered o p ≡ true)
meets_some a [] va vo h = cc
meets_some a (b ∷ o) va vo h = elim (Bool-cases (meets a b)) [
  | inl e ↦ (max a.lo b.lo, ground arith, ground arith)
  | inr e ↦ let (p, hp, hq) = meets_some a o va vo.1 (ground arith) in (p, hp, ground arith)
]

meets_all :
    (a : Iv) (o : Ivs) (p : ℕ)
    → contains_point p a ≡ true
    → covered o p ≡ true
    → any (meets a) o ≡ true
meets_all a [] p ha h = cc
meets_all a (b ∷ o) p ha h = ground (arith, meets_all a o p ha)

overlaps_some :
    (s o : Ivs)
    → IsValid s
    → IsValid o
    → overlaps s o ≡ true
    → (p : ℕ) × (covered s p ≡ true) × (covered o p ≡ true)
unfolding overlaps
overlaps_some [] o vs vo h = cc
overlaps_some (a ∷ s) o vs vo h = elim (Bool-cases (any (meets a) o)) [
  | inl e ↦ let (p, hp, hq) = meets_some a o vs.0 vo e in (p, ground arith, hq)
  | inr e ↦ let (p, hp, hq) = overlaps_some s o vs.1 vo (ground arith) in (p, ground arith, hq)
]

pub overlaps_all :
    (s o : Ivs) (p : ℕ) → covered s p ≡ true → covered o p ≡ true → overlaps s o ≡ true
unfolding overlaps
overlaps_all [] o p hs ho = cc
overlaps_all (a ∷ s) o p hs ho = elim (Bool-cases (contains_point p a)) [
  | inl e ↦ rw (meets_all a o p e ho)
  | inr e ↦ ground (arith, overlaps_all s o p (ground arith) ho)
]

-- Two sets of valid intervals overlap exactly when some point is in both.
pub overlaps_iff :
    (s o : Ivs)
    → IsValid s
    → IsValid o
    → (overlaps s o ≡ true) ↔ ((p : ℕ) × (covered s p ≡ true) × (covered o p ≡ true))
overlaps_iff s o vs vo = (overlaps_some s o vs vo, λ x. overlaps_all s o x.0 x.1 x.2)
