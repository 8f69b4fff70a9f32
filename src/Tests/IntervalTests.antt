-- ===== src/Tests/IntervalTests.antt =====
-- Runs of sets.go's interval sets, and its theorems at small sets.
use songbird_prototypes.Prelude.{ℕ, ◌≡◌, refl, ◌↔◌, true, [], ◌∷◌, arith}
use songbird_prototypes.Validator.Intervals.{Iv, Ivs, norm, overlaps, covers, size, covered}
use songbird_prototypes.Validator.Intervals.Norm.{IsSeparated, norm_lem}
use songbird_prototypes.Validator.Intervals.Overlap.{overlaps_iff}
use songbird_prototypes.Validator.Intervals.Covering.{covers_iff}

abbrev span : ℕ → ℕ → Iv
span a b = record { lo = a; hi = b }

abbrev ports : Ivs
ports = span 20 25 ∷ span 1 9 ∷ span 10 15 ∷ []

norm_test : norm ports ≡ span 1 15 ∷ span 20 25 ∷ []
unfolding norm
norm_test = refl

size_test : size ports ≡ 21
unfolding size
size_test = refl

norm_lem_example : IsSeparated (norm ports) × ((p : ℕ) → covered (norm ports) p ≡ covered ports p)
norm_lem_example = norm_lem ports

overlaps_iff_example :
    (overlaps ports (span 15 19 ∷ []) ≡ true)
    ↔ ((p : ℕ) × (covered ports p ≡ true) × (covered (span 15 19 ∷ []) p ≡ true))
overlaps_iff_example = overlaps_iff ports (span 15 19 ∷ []) (omega arith) (omega arith)

covers_iff_example :
    (covers ports (span 5 12 ∷ []) ≡ true)
    ↔ ((p : ℕ) → covered (span 5 12 ∷ []) p ≡ true → covered ports p ≡ true)
covers_iff_example = covers_iff ports (span 5 12 ∷ []) (omega arith)
