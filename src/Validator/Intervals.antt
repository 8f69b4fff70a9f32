-- ===== src/Validator/Intervals.antt =====
-- PoC-webui-v2/internal/validator/sets.go, `iv` and `ivs`: interval sets over IPv4 addresses and
-- ports. The bounds are uint32 values; sums that the source widens to uint64 are exact here.
pub mod Norm
pub mod Overlap
pub mod Covering
pub mod Size
use songbird_prototypes.Prelude.{
  ℕ, ◌+◌, ◌-◌, ◌%◌, ◌^◌, ◌≤◌, max, Bool, true, false, ◌&&◌, List, [], ◌∷◌, ltb, leb, if◌then◌else◌,
  any, all, All,
}

pub record Iv : Type 0 where
  pub lo : ℕ
  pub hi : ℕ

abbrev pub Ivs : Type 0
Ivs = List Iv

pub insert_by_lo : Iv → Ivs → Ivs
insert_by_lo x [] = x ∷ []
insert_by_lo x (y ∷ l) = if ltb y.lo x.lo then y ∷ insert_by_lo x l else x ∷ y ∷ l

-- `sort.Slice` by `lo`. It may leave intervals of equal `lo` in any order; `norm` joins those.
sort_by_lo : Ivs → Ivs
unfolding insert_by_lo
sort_by_lo [] = []
sort_by_lo (x ∷ l) = insert_by_lo x (sort_by_lo l)

-- The loop of `norm`: `last` is the last interval of the output.
merge : Iv → Ivs → Ivs
merge last [] = last ∷ []
merge last (x ∷ xs) = elim (leb x.lo (last.hi + 1)) [
  | true ↦ merge (record last { hi = max last.hi x.hi }) xs
  | false ↦ last ∷ merge x xs
]

merge_sorted : Ivs → Ivs
merge_sorted [] = []
merge_sorted (x ∷ xs) = merge x xs

unfoldable pub norm : Ivs → Ivs
unfolding merge_sorted merge sort_by_lo
norm s = merge_sorted (sort_by_lo s)

abbrev pub meets : Iv → Iv → Bool
meets a b = leb a.lo b.hi && leb b.lo a.hi

unfoldable pub overlaps : Ivs → Ivs → Bool
overlaps s o = any (λ a. any (meets a) o) s

abbrev pub encloses : Iv → Iv → Bool
encloses a b = leb a.lo b.lo && leb b.hi a.hi

-- Whether every element of `o` is inside `s`.
unfoldable pub covers : Ivs → Ivs → Bool
covers s o = let n = norm s in all (λ b. any (λ a. encloses a b) n) o

-- `uint64(x.hi-x.lo) + 1`: the difference wraps at 32 bits, the sum at 64.
size_from : ℕ → Ivs → ℕ
size_from n [] = n
size_from n (x ∷ xs) = size_from ((n + (x.hi + 2 ^ 32 - x.lo) % 2 ^ 32 + 1) % 2 ^ 64) xs

unfoldable pub size : Ivs → ℕ
unfolding size_from norm
size s = size_from 0 (norm s)

-- What an interval set means: the points that it contains.
abbrev pub contains_point : ℕ → Iv → Bool
contains_point p a = leb a.lo p && leb p a.hi

abbrev pub covered : Ivs → ℕ → Bool
covered s p = any (contains_point p) s

-- Every interval has a point.
abbrev pub IsValid : Ivs → Type 0
IsValid s = All (λ a. a.lo ≤ a.hi) s
