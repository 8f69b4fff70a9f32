-- ===== src/Validator/Intervals/Size.antt =====
-- sets.go, `size`: the number of points of a set, for bounds that fit 32 bits.
use songbird_prototypes.Prelude.{
  ℕ, zero, suc, ◌+◌, ◌-◌, ◌%◌, ◌^◌, ◌≤◌, ◌<◌, max, min, ◌≡◌, refl, sym, ◌∙◌, inl, inr, Bool, true,
  false, ◌||◌, [], ◌∷◌, arith, leb, if◌then◌else◌, Bool-cases, All,
}
use songbird_prototypes.Validator.Intervals.{
  Iv, Ivs, sort_by_lo, merge, merge_sorted, norm, size_from, size, contains_point, covered,
}
use songbird_prototypes.Validator.Intervals.Norm.{
  All-insert, IsSeparated, covered-norm, norm-IsSeparated,
}
use songbird_prototypes.Validator.Intervals.Covering.{covered-apart}

-- How many numbers below `n` pass the test.
pub count : ℕ → (ℕ → Bool) → ℕ
count zero f = 0
count (suc n) f = (if f n then 1 else 0) + count n f

count-le : (n : ℕ) (f : ℕ → Bool) → count n f ≤ n
unfolding count
count-le zero f = omega arith
count-le (suc n) f = ground (arith, count-le n f)

count-ext : (n : ℕ) (f g : ℕ → Bool) → ((p : ℕ) → f p ≡ g p) → count n f ≡ count n g
unfolding count
count-ext zero f g h = refl
count-ext (suc n) f g h = rw (h n, count-ext n f g h)

count-or :
    (n : ℕ) (f g : ℕ → Bool)
    → ((p : ℕ) → f p ≡ true → g p ≡ false)
    → count n (λ p. f p || g p) ≡ count n f + count n g
unfolding count
count-or zero f g h = refl
count-or (suc n) f g h = ground (arith, h n, count-or n f g h)

count_none : (n : ℕ) → count n (λ p. false) ≡ 0
unfolding count
count_none zero = refl
count_none (suc n) = omega (arith, count_none n)

count_interval :
    (n : ℕ) (a : Iv) → a.lo ≤ a.hi → count n (λ p. contains_point p a) ≡ min n (a.hi + 1) - a.lo
unfolding count
count_interval zero a h = omega arith
count_interval (suc n) a h = ground (arith, count_interval n a h)

total : Ivs → ℕ
total [] = 0
total (x ∷ xs) = (x.hi - x.lo + 1) + total xs

-- Valid, with both bounds below `n`.
abbrev pub IsBelow : ℕ → Ivs → Type 0
IsBelow n l = All (λ a. (a.lo ≤ a.hi) × (a.hi < n)) l

total-eq-count : (n : ℕ) (l : Ivs) → IsSeparated l → IsBelow n l → total l ≡ count n (covered l)
unfolding total
total-eq-count n [] hs hb = sym (count_none n)
total-eq-count n (a ∷ l) hs hb =
    let here : count n (λ p. contains_point p a) ≡ min n (a.hi + 1) - a.lo =
      count_interval n a hb.0.0 in
    let both =
      count-or n (λ p. contains_point p a) (covered l)
        (λ p h. covered-apart a l p hs.0 (inr (ground arith))) in
    omega (arith, here, both, total-eq-count n l hs.1 hb.1, hb.0.0, hb.0.1)

sort-IsBelow : (n : ℕ) (l : Ivs) → IsBelow n l → IsBelow n (sort_by_lo l)
unfolding sort_by_lo
sort-IsBelow n [] h = tt
sort-IsBelow n (x ∷ l) h =
    All-insert (λ a. (a.lo ≤ a.hi) × (a.hi < n)) x (sort_by_lo l) h.0 (sort-IsBelow n l h.1)

merge-IsBelow :
    (n : ℕ) (a : Iv) (l : Ivs) → (a.lo ≤ a.hi) × (a.hi < n) → IsBelow n l → IsBelow n (merge a l)
unfolding merge
merge-IsBelow n a [] h hl = (h, tt)
merge-IsBelow n a (x ∷ xs) h hl = elim (Bool-cases (leb x.lo (a.hi + 1))) [
  | inl e ↦
      rw (e, merge, All)
        (merge-IsBelow n (record a { hi = max a.hi x.hi }) xs (omega arith, omega arith) hl.1)
  | inr e ↦ rw (e, merge, All) (h, merge-IsBelow n x xs hl.0 hl.1)
]

norm-IsBelow : (n : ℕ) (s : Ivs) → IsBelow n s → IsBelow n (norm s)
unfolding norm
norm-IsBelow n s h = go (sort_by_lo s) (sort-IsBelow n s h)
  where
    go : (l : Ivs) → IsBelow n l → IsBelow n (merge_sorted l)
    go [] k = tt
    go (x ∷ xs) k = merge-IsBelow n x xs k.0 k.1

size_from-eq :
    (n acc : ℕ) (l : Ivs)
    → n ≤ 2 ^ 32
    → IsBelow n l
    → acc + total l < 2 ^ 64
    → size_from acc l ≡ acc + total l
unfolding size_from total
size_from-eq n acc [] hn hb h = omega arith
size_from-eq n acc (x ∷ xs) hn hb h =
    let step : (acc + (x.hi + 2 ^ 32 - x.lo) % 2 ^ 32 + 1) % 2 ^ 64 ≡ acc + (x.hi - x.lo + 1) =
      omega (arith, hb.0.0, hb.0.1) in
    rw step (size_from-eq n (acc + (x.hi - x.lo + 1)) xs hn hb.1 (omega arith) ∙ omega arith)

-- The size of a set of valid intervals below `n`, at most 2^32, is the number of its points.
pub size-eq-count : (n : ℕ) (s : Ivs) → n ≤ 2 ^ 32 → IsBelow n s → size s ≡ count n (covered s)
unfolding size
size-eq-count n s hn hb =
    let sum = total-eq-count n (norm s) (norm-IsSeparated s) (norm-IsBelow n s hb) in
    size_from-eq n 0 (norm s) hn (norm-IsBelow n s hb)
      (omega (arith, sum, count-le n (covered (norm s))))
    ∙ omega (arith, sum, count-ext n (covered (norm s)) (covered s) (covered-norm s))
