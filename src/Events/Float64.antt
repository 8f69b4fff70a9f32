-- ===== src/Events/Float64.antt =====
-- The part of Go's float64 that events.go uses: values that are not negative, and far from overflow. A
-- value is counted in units of 2 ^ -1074, of which every finite float64 is a multiple.

pub mod Near
use songbird_prototypes.Prelude.{
  ℕ, ◌+◌, ◌-◌, ◌*◌, ◌/◌, ◌%◌, ◌^◌, List, [], ◌∷◌, ltb, leb, if◌then◌else◌,
}

abbrev pub one : ℕ
one = 2 ^ 1074

-- The bits below the 53 of the significand, of a number of units: the greatest sum of the steps that
-- leaves 2 ^ (52 + s) ≤ k, or 0.
spare_from : List ℕ → ℕ → ℕ → ℕ
spare_from [] s k = s
spare_from (d ∷ ds) s k = spare_from ds (if leb (2 ^ (52 + (s + d))) k then s + d else s) k

abbrev steps : List ℕ
steps = 1024 ∷ 512 ∷ 256 ∷ 128 ∷ 64 ∷ 32 ∷ 16 ∷ 8 ∷ 4 ∷ 2 ∷ 1 ∷ []

unfoldable pub spare : ℕ → ℕ
unfolding spare_from
spare k = spare_from steps 0 k

-- `p / d` to the nearest integer, to the even one from the middle.
unfoldable pub nearest : ℕ → ℕ → ℕ
nearest p d =
    let q = p / d in
    let r = 2 * (p % d) in if ltb r d then q else if ltb d r then q + 1 else q + q % 2

-- The float64 next to `p / d` units.
unfoldable pub rounded : ℕ → ℕ → ℕ
unfolding spare nearest
rounded p d = let u = 2 ^ spare (p / d) in u * nearest p (d * u)

-- The conversion of an integer, which is exact below 2 ^ 53: more than the seconds of any Duration.
abbrev pub of_nat : ℕ → ℕ
of_nat n = n * one

unfoldable pub plus : ℕ → ℕ → ℕ
plus x y = rounded (x + y) 1

-- For `y ≤ x`.
unfoldable pub minus : ℕ → ℕ → ℕ
minus x y = rounded (x - y) 1

unfoldable pub times : ℕ → ℕ → ℕ
times x y = rounded (x * y) one

unfoldable pub over : ℕ → ℕ → ℕ
over x y = rounded (x * one) y

-- `Duration.Seconds`: the whole seconds and the rest are converted apart.
unfoldable pub seconds : ℕ → ℕ
seconds ns = plus (of_nat (ns / 10 ^ 9)) (over (of_nat (ns % 10 ^ 9)) (of_nat (10 ^ 9)))
