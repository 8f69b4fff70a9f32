-- ===== src/Model/Durations.antt =====
-- PoC-webui-v2/internal/model/values.go, `ParseDuration`: "30s", "12h", "7d" and their joins.
-- A text is read as its code points; a `time.Duration` is the bit pattern of an int64.
use songbird_prototypes.Prelude.{
  ℕ, ◌+◌, ◌-◌, ◌*◌, ◌%◌, ◌^◌, min, String, ◌≡◌, refl, Bool, ◌&&◌, Option, none, some, List, [], ◌∷◌,
  ltb, leb, eqb, if◌then◌else◌, length,
}
use Prim.Native.Char.{code}

abbrev pub Duration : Type 0
Duration = ℕ

abbrev pub second : Duration
second = 1_000_000_000

-- The int64 of this bit pattern is above 0.
abbrev pub is_positive : Duration → Bool
is_positive d = ltb 0 d && ltb d (2 ^ 63)

abbrev pub codes : String → List ℕ
codes String.[] = []
codes (String.◌∷◌ c s) = code c ∷ codes s

abbrev pub is_digit : ℕ → Bool
is_digit c = leb b'0' c && leb c b'9'

-- The run of digits at the front, and what follows it.
unfoldable pub span_digits : List ℕ → List ℕ × List ℕ
span_digits [] = ([], [])
span_digits (c ∷ cs) =
    let (ds, rest) = span_digits cs in if is_digit c then (c ∷ ds, rest) else ([], c ∷ cs)

unfoldable pub decimal_from : ℕ → List ℕ → ℕ
decimal_from acc [] = acc
decimal_from acc (c ∷ cs) = decimal_from (acc * 10 + (c - b'0')) cs

-- `strconv.Atoi` on digits: out of range it returns the largest int, and the error is dropped.
unfoldable pub atoi : List ℕ → ℕ
unfolding decimal_from
atoi ds = min (decimal_from 0 ds) (2 ^ 63 - 1)

field_of : ℕ → List ℕ → List ℕ × List ℕ → Option ℕ × List ℕ
field_of unit s (d ∷ ds, c ∷ rest) = if eqb c unit then (some (atoi (d ∷ ds)), rest) else (none, s)
field_of unit s _ = (none, s)

-- One optional group `(?:([0-9]+)u)?` of the pattern.
field : ℕ → List ℕ → Option ℕ × List ℕ
unfolding field_of span_digits atoi
field unit s = field_of unit s (span_digits s)

abbrev scaled : Option ℕ → ℕ → ℕ
scaled none unit = 0
scaled (some n) unit = n * unit

-- The sum wraps at 64 bits, as the int64 does.
unfoldable pub parse_duration : String → Option Duration
unfolding field
parse_duration text =
    let s = codes text in
    let (d, s₁) = field b'd' s in
    let (h, s₂) = field b'h' s₁ in
    let (m, s₃) = field b'm' s₂ in
    let (sec, s₄) = field b's' s₃ in
    if ltb (length s) 2 then none else elim s₄ [
      | [] ↦ some (
          (scaled d (86400 * second)
            + scaled h (3600 * second)
            + scaled m (60 * second)
            + scaled sec second)
          % 2 ^ 64)
      | _ ↦ none
    ]

parse_duration_mixed : parse_duration "1h30m" ≡ some (5400 * second)
unfolding parse_duration
parse_duration_mixed = refl

parse_duration_bad : parse_duration "30x" ≡ none
unfolding parse_duration
parse_duration_bad = refl
