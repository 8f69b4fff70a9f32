-- ===== src/Events/Float64/Near.antt =====
-- float64 arithmetic on values below 64: a result is at most 2 ^ -46 above the exact one.
use songbird_prototypes.Prelude.{
  ℕ, zero, suc, ◌+◌, ◌-◌, ◌*◌, ◌/◌, ◌%◌, ◌^◌, ◌≤◌, ◌<◌, ◌≡◌, refl, ap, ◌∙◌, ◌⊎◌, inl, inr, List, [],
  ◌∷◌, arith, leb, leb→le, Bool-cases,
}
use native.Mathlib.Nat.{mul-div-le, mul-le-mul, le_refl, pow-suc, pow-zero, div-lt_iff_lt-mul}
use songbird_prototypes.Events.Float64.{
  one, steps, spare_from, spare, nearest, rounded, of_nat, plus, minus, times, over, seconds,
}

-- 2 ^ -46.
abbrev pub slack : ℕ
slack = 2 ^ 1028

FitsIn : ℕ → ℕ → Type 0
FitsIn k s = (s ≡ 0) ⊎ (2 ^ (52 + s) ≤ k)

spare_from-FitsIn : (ds : List ℕ) (s k : ℕ) → FitsIn k s → FitsIn k (spare_from ds s k)
unfolding spare_from FitsIn
spare_from-FitsIn [] s k h = h
spare_from-FitsIn (d ∷ ds) s k h = elim (Bool-cases (leb (2 ^ (52 + (s + d))) k)) [
  | inl e ↦ rw e (spare_from-FitsIn ds (s + d) k (inr (leb→le (2 ^ (52 + (s + d))) k e)))
  | inr e ↦ rw e (spare_from-FitsIn ds s k h)
]

spare-FitsIn : (k : ℕ) → FitsIn k (spare k)
unfolding spare FitsIn
spare-FitsIn k = spare_from-FitsIn steps 0 k (inl refl)

two_pow_add : (m n : ℕ) → 2 ^ (m + n) ≡ 2 ^ m * 2 ^ n
two_pow_add m zero = grind (arith, pow-zero 2)
two_pow_add m (suc n) =
    let e : 2 ^ (m + suc n) ≡ 2 ^ (m + n) * 2 = ap (λ k. 2 ^ k) (omega arith) ∙ pow-suc 2 (m + n) in
    grind (arith, e, two_pow_add m n, pow-suc 2 n)

unit_small : (k s : ℕ) → k < 2 ^ 1080 → FitsIn k s → 2 ^ s ≤ slack
unfolding FitsIn
unit_small k s h (inl e) = rw e (omega arith)
unit_small k s h (inr e) = omega (arith, e, h, two_pow_add 52 s)

nearest_le : (p d : ℕ) → nearest p d ≤ p / d + 1
unfolding nearest
nearest_le p d = ground arith

step_le : (p d u q n : ℕ) → d * u * q ≤ p → n ≤ q + 1 → u * n * d ≤ p + u * d
step_le p d u q n h k =
    grind (arith, h, mul-le-mul {n₁ = d * u} {m₁ = n} {n₂ = d * u} {m₂ = q + 1} (le_refl (d * u)) k)

-- The value above `p / d`.
pub rounded_le : (p d : ℕ) → 0 < d → p < 2 ^ 1080 * d → rounded p d * d ≤ p + slack * d
unfolding rounded
rounded_le p d pos small =
    let u = 2 ^ spare (p / d) in
    let first : rounded p d * d ≤ p + u * d =
      step_le p d u (p / (d * u)) (nearest p (d * u)) (mul-div-le p (d * u))
        (nearest_le p (d * u)) in
    let least : u ≤ slack =
      unit_small (p / d) (spare (p / d)) ((div-lt_iff_lt-mul pos).1 small) (spare-FitsIn (p / d)) in
    omega (arith, first, mul-le-mul {n₁ = u} {m₁ = d} {n₂ = slack} {m₂ = d} least (le_refl d))

pub plus_le : (x y : ℕ) → x + y < 2 ^ 1080 → plus x y ≤ x + y + slack
unfolding plus
plus_le x y h = omega (arith, rounded_le (x + y) 1 (omega arith) (omega (arith, h)))

pub minus_le : (x y : ℕ) → x < 2 ^ 1080 → minus x y ≤ x - y + slack
unfolding minus
minus_le x y h = omega (arith, rounded_le (x - y) 1 (omega arith) (omega (arith, h)))

over_le :
    (ns : ℕ) → ns < 10 ^ 9 → over (of_nat ns) (of_nat (10 ^ 9)) * 10 ^ 9 ≤ ns * one + slack * 10 ^ 9
unfolding over
over_le ns h =
    omega
      (arith, h, rounded_le (of_nat ns * one) (of_nat (10 ^ 9)) (omega arith) (omega (arith, h)))

-- Times below a second.
pub seconds_le : (ns : ℕ) → ns < 10 ^ 9 → seconds ns * 10 ^ 9 ≤ ns * one + 2 * slack * 10 ^ 9
unfolding seconds
seconds_le ns h =
    let part = over (of_nat (ns % 10 ^ 9)) (of_nat (10 ^ 9)) in
    let few : ns % 10 ^ 9 < 10 ^ 9 = omega arith in
    omega (
      arith,
      h,
      over_le (ns % 10 ^ 9) few,
      plus_le (of_nat (ns / 10 ^ 9)) part (omega (arith, h, over_le (ns % 10 ^ 9) few)),
    )

times_le : (x : ℕ) → x * 30 < 2 ^ 1080 → times x (of_nat 30) ≤ x * 30 + slack
unfolding times
times_le x h = omega (arith, h, rounded_le (x * of_nat 30) one (omega arith) (omega (arith, h)))

-- Thirty tokens a second, for a time below a second.
pub gain_le :
    (ns : ℕ)
    → ns < 10 ^ 9
    → times (seconds ns) (of_nat 30) * 10 ^ 9 ≤ 30 * ns * one + 61 * slack * 10 ^ 9
gain_le ns h =
    omega (arith, seconds_le ns h, times_le (seconds ns) (omega (arith, h, seconds_le ns h)))
