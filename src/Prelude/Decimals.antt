-- ===== src/Prelude/Decimals.antt =====
-- The verb %d of package fmt, which strconv.Itoa shares, on a number that is not negative.
use Prim.Native.Nat.{ℕ, zero, suc, ◌+◌, ◌/◌, ◌%◌}
use Prim.Native.String.{String}
use mathlib.Core.List.{[], ◌∷◌}
use songbird_prototypes.Prelude.Tests.{eqb, ltb, if◌then◌else◌}
use songbird_prototypes.Prelude.Texts.{concat}

unfoldable pub digit : ℕ → String
digit d =
    if eqb d 0
    then "0"
    else if eqb d 1
    then "1"
    else if eqb d 2
    then "2"
    else if eqb d 3
    then "3"
    else if eqb d 4
    then "4"
    else if eqb d 5
    then "5"
    else if eqb d 6
    then "6"
    else if eqb d 7
    then "7"
    else if eqb d 8
    then "8"
    else "9"

unfoldable pub digits : ℕ → ℕ → String
digits zero n = ""
digits (suc fuel) n =
    let front = digits fuel (n / 10) in
    concat ((if ltb n 10 then "" else front) ∷ digit (n % 10) ∷ [])

-- A number has at most as many digits as its successor.
unfoldable pub decimal : ℕ → String
decimal n = digits (n + 1) n
