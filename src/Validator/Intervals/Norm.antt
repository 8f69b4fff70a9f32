-- ===== src/Validator/Intervals/Norm.antt =====
-- sets.go, `norm`: it keeps the points of a set, and its result is sorted, with a gap of at least
-- one point between any two intervals.
use songbird_prototypes.Prelude.{
  ℕ, ◌+◌, ◌≤◌, ◌<◌, max, ◌≡◌, refl, ◌∙◌, inl, inr, [], ◌∷◌, arith, ltb, leb, ltb→lt, ltb-false,
  leb-false, Bool-cases, All,
}
use songbird_prototypes.Validator.Intervals.{
  Iv, Ivs, insert_by_lo, sort_by_lo, merge, merge_sorted, norm, covered,
}

abbrev pub IsSorted : Ivs → Type 0
IsSorted [] = Unit
IsSorted (a ∷ l) = All (λ b. a.lo ≤ b.lo) l × IsSorted l

-- Sorted, and no two intervals touch.
abbrev pub IsSeparated : Ivs → Type 0
IsSeparated [] = Unit
IsSeparated (a ∷ l) = All (λ b. (a.hi + 1 < b.lo) × (a.lo ≤ b.lo)) l × IsSeparated l

covered-insert : (x : Iv) (l : Ivs) (p : ℕ) → covered (insert_by_lo x l) p ≡ covered (x ∷ l) p
unfolding insert_by_lo
covered-insert x [] p = refl
covered-insert x (y ∷ l) p = ground (arith, covered-insert x l p)

covered-sort : (l : Ivs) (p : ℕ) → covered (sort_by_lo l) p ≡ covered l p
unfolding sort_by_lo
covered-sort [] p = refl
covered-sort (x ∷ l) p = ground (arith, covered-insert x (sort_by_lo l) p, covered-sort l p)

pub All-insert {κ} : (P : Iv → Type κ) (x : Iv) (l : Ivs) → P x → All P l → All P (insert_by_lo x l)
unfolding insert_by_lo
All-insert P x [] hx h = (hx, tt)
All-insert P x (y ∷ l) hx h = elim (Bool-cases (ltb y.lo x.lo)) [
  | inl e ↦ rw e (h.0, All-insert P x l hx h.1)
  | inr e ↦ rw e (hx, h)
]

All-le : (a b : ℕ) (l : Ivs) → a ≤ b → All (λ c. b ≤ c.lo) l → All (λ c. a ≤ c.lo) l
All-le a b [] h hl = tt
All-le a b (c ∷ l) h hl = (omega arith, All-le a b l h hl.1)

insert-IsSorted : (x : Iv) (l : Ivs) → IsSorted l → IsSorted (insert_by_lo x l)
unfolding insert_by_lo
insert-IsSorted x [] h = (tt, tt)
insert-IsSorted x (y ∷ l) h = elim (Bool-cases (ltb y.lo x.lo)) [
  | inl e ↦ rw e (
    All-insert (λ b. y.lo ≤ b.lo) x l (omega (arith, ltb→lt y.lo x.lo e)) h.0,
    insert-IsSorted x l h.1,
  )
  | inr e ↦
      let le : x.lo ≤ y.lo = ltb-false y.lo x.lo e in rw e ((le, All-le x.lo y.lo l le h.0), h)
]

sort-IsSorted : (l : Ivs) → IsSorted (sort_by_lo l)
unfolding sort_by_lo
sort-IsSorted [] = tt
sort-IsSorted (x ∷ l) = insert-IsSorted x (sort_by_lo l) (sort-IsSorted l)

covered-merge :
    (a : Iv) (l : Ivs) (p : ℕ)
    → All (λ b. a.lo ≤ b.lo) l
    → IsSorted l
    → covered (merge a l) p ≡ covered (a ∷ l) p
unfolding merge
covered-merge a [] p h hs = refl
covered-merge a (x ∷ xs) p h hs = ground (
  arith,
  covered-merge (record a { hi = max a.hi x.hi }) xs p h.1 hs.1,
  covered-merge x xs p hs.0 hs.1,
)

covered-merge_sorted : (l : Ivs) (p : ℕ) → IsSorted l → covered (merge_sorted l) p ≡ covered l p
unfolding merge_sorted
covered-merge_sorted [] p h = refl
covered-merge_sorted (x ∷ xs) p h = covered-merge x xs p h.0 h.1

-- A point is in the normal form exactly when it is in the set.
pub covered-norm : (s : Ivs) (p : ℕ) → covered (norm s) p ≡ covered s p
unfolding norm
covered-norm s p = covered-merge_sorted (sort_by_lo s) p (sort-IsSorted s) ∙ covered-sort s p

-- The head that `merge` leaves starts where its argument does.
All-merge :
    (n : ℕ) (a : Iv) (l : Ivs) → n ≤ a.lo → All (λ b. n ≤ b.lo) l → All (λ b. n ≤ b.lo) (merge a l)
unfolding merge
All-merge n a [] h hl = (h, tt)
All-merge n a (x ∷ xs) h hl = elim (Bool-cases (leb x.lo (a.hi + 1))) [
  | inl e ↦ rw (e, merge, All) (All-merge n (record a { hi = max a.hi x.hi }) xs h hl.1)
  | inr e ↦ rw (e, merge, All) (h, All-merge n x xs hl.0 hl.1)
]

All-apart :
    (a : Iv) (l : Ivs) (n : ℕ)
    → a.hi + 1 < n
    → a.lo ≤ n
    → All (λ b. n ≤ b.lo) l
    → All (λ b. (a.hi + 1 < b.lo) × (a.lo ≤ b.lo)) l
All-apart a [] n h k hl = tt
All-apart a (b ∷ l) n h k hl = ((omega arith, omega arith), All-apart a l n h k hl.1)

merge-IsSeparated :
    (a : Iv) (l : Ivs) → All (λ b. a.lo ≤ b.lo) l → IsSorted l → IsSeparated (merge a l)
unfolding merge
merge-IsSeparated a [] h hs = (tt, tt)
merge-IsSeparated a (x ∷ xs) h hs = elim (Bool-cases (leb x.lo (a.hi + 1))) [
  | inl e ↦
      rw (e, merge, IsSeparated) (merge-IsSeparated (record a { hi = max a.hi x.hi }) xs h.1 hs.1)
  | inr e ↦
      rw (e, merge, IsSeparated)
        (
          All-apart a (merge x xs) x.lo (leb-false x.lo (a.hi + 1) e) h.0
              (All-merge x.lo x xs (omega arith) hs.0),
          merge-IsSeparated x xs hs.0 hs.1,
        )
]

merge_sorted-IsSeparated : (l : Ivs) → IsSorted l → IsSeparated (merge_sorted l)
unfolding merge_sorted
merge_sorted-IsSeparated [] h = tt
merge_sorted-IsSeparated (x ∷ xs) h = merge-IsSeparated x xs h.0 h.1

pub norm-IsSeparated : (s : Ivs) → IsSeparated (norm s)
unfolding norm
norm-IsSeparated s = merge_sorted-IsSeparated (sort_by_lo s) (sort-IsSorted s)

-- `norm` gives a sorted list, in which at least one point lies between two neighbours, and it keeps
-- the points of the set, intervals that are empty included.
pub norm_lem : (s : Ivs) → IsSeparated (norm s) × ((p : ℕ) → covered (norm s) p ≡ covered s p)
norm_lem s = (norm-IsSeparated s, covered-norm s)
