-- ===== src/Validator/Intervals/Covering.antt =====
-- sets.go, `covers`: a set covers another exactly when it has all its points.
use songbird_prototypes.Prelude.{
  ℕ, ◌+◌, ◌≤◌, ◌<◌, ◌≡◌, refl, sym, ◌∙◌, ◌↔◌, ◌⊎◌, inl, inr, true, false, [], ◌∷◌, arith, ltb,
  ltb→lt, ltb-false, Bool-cases, any, all, All,
}
use songbird_prototypes.Validator.Intervals.{
  Iv, Ivs, encloses, covers, norm, contains_point, covered, IsValid,
}
use songbird_prototypes.Validator.Intervals.Norm.{IsSeparated, covered-norm, norm-IsSeparated}

-- No interval that follows in a separated list has a point up to just behind the first.
pub covered-apart :
    (a : Iv) (l : Ivs) (p : ℕ)
    → All (λ b. (a.hi + 1 < b.lo) × (a.lo ≤ b.lo)) l
    → (p < a.lo) ⊎ (p ≤ a.hi + 1)
    → covered l p ≡ false
covered-apart a [] p h k = refl
covered-apart a (b ∷ l) p h k = ground (arith, covered-apart a l p h.1 k)

-- In a separated list, one interval holds every range that the list covers.
enclosed :
    (l : Ivs) (b : Iv)
    → IsSeparated l
    → b.lo ≤ b.hi
    → ((p : ℕ) → b.lo ≤ p → p ≤ b.hi → covered l p ≡ true)
    → any (λ a. encloses a b) l ≡ true
enclosed [] b hs hb h = ground (arith, h b.lo)
enclosed (a ∷ l) b hs hb h = elim (Bool-cases (contains_point b.lo a)) [
  | inl e ↦ ground (arith, h (a.hi + 1), covered-apart a l (a.hi + 1) hs.0 (inr (omega arith)))
  | inr e ↦
      let above : a.lo ≤ b.lo = elim (Bool-cases (ltb b.lo a.lo)) [
        | inl lt ↦
            absurd (ground (arith, h b.lo, covered-apart a l b.lo hs.0 (inl (ltb→lt b.lo a.lo lt))))
        | inr ge ↦ ltb-false b.lo a.lo ge
      ] in
      let inner : (p : ℕ) → b.lo ≤ p → p ≤ b.hi → covered l p ≡ true =
        λ p le ge. ground (arith, h p) in
      let found : any (λ c. encloses c b) l ≡ true = enclosed l b hs.1 hb inner in ground arith
]

covered_of_encloses :
    (n : Ivs) (b : Iv) (p : ℕ)
    → any (λ a. encloses a b) n ≡ true
    → contains_point p b ≡ true
    → covered n p ≡ true
covered_of_encloses [] b p h k = cc
covered_of_encloses (a ∷ n) b p h k = ground (arith, covered_of_encloses n b p)

covered_of_all :
    (n o : Ivs) (p : ℕ)
    → all (λ b. any (λ a. encloses a b) n) o ≡ true
    → covered o p ≡ true
    → covered n p ≡ true
covered_of_all n [] p h k = cc
covered_of_all n (b ∷ o) p h k = elim (Bool-cases (contains_point p b)) [
  | inl e ↦ covered_of_encloses n b p (ground arith) e
  | inr e ↦ covered_of_all n o p (ground arith) (ground arith)
]

all_of_covered :
    (n o : Ivs)
    → IsSeparated n
    → IsValid o
    → ((p : ℕ) → covered o p ≡ true → covered n p ≡ true)
    → all (λ b. any (λ a. encloses a b) n) o ≡ true
all_of_covered n [] hs vo h = refl
all_of_covered n (b ∷ o) hs vo h =
    let first : any (λ a. encloses a b) n ≡ true =
      enclosed n b hs vo.0 (λ p le ge. h p (ground arith)) in
    rw first (all_of_covered n o hs vo.1 (λ p k. h p (ground arith)))

-- A set covers a set of valid intervals exactly when it has all its points.
pub covers_iff :
    (s o : Ivs)
    → IsValid o
    → (covers s o ≡ true) ↔ ((p : ℕ) → covered o p ≡ true → covered s p ≡ true)
unfolding covers
covers_iff s o vo = (
  λ h p k. sym (covered-norm s p) ∙ covered_of_all (norm s) o p h k,
  λ h. all_of_covered (norm s) o (norm-IsSeparated s) vo (λ p k. covered-norm s p ∙ h p k),
)
