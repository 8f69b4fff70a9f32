-- ===== src/Model/Ports/RoundTrip.antt =====
-- values.go: a PortRange is read back as it was written.
use songbird_prototypes.Prelude.{
  ℕ, zero, suc, ◌+◌, ◌-◌, ◌*◌, ◌/◌, ◌%◌, ◌≤◌, ◌<◌, String, ◌≡◌, refl, sym, ap, ◌∙◌, subst, inl, inr,
  true, false, ◌&&◌, some, List, [], ◌∷◌, ◌++◌, arith, ltb, leb, eqb, ltb→lt, ltb-false, Bool-cases,
  length, length-append, All, All-append, concat, digit, digits, decimal,
}
use Prim.Native.String.append
use Prim.Native.Char.{code}
use mathlib.Core.List.{append-nil}
use songbird_prototypes.Model.Types.{PortRange}
use songbird_prototypes.Model.Durations.{codes, span_digits, atoi, decimal_from, is_digit}
use songbird_prototypes.Model.Ports.{
  number, text, port_text, port_digits, range_end, range_start, parse_port_string, marshal,
  unmarshal,
}

codes-digit : (d : ℕ) → d < 10 → codes (digit d) ≡ (48 + d) ∷ []
unfolding digit
codes-digit zero h = refl
codes-digit (suc zero) h = refl
codes-digit (suc (suc zero)) h = refl
codes-digit (suc (suc (suc zero))) h = refl
codes-digit (suc (suc (suc (suc zero)))) h = refl
codes-digit (suc (suc (suc (suc (suc zero))))) h = refl
codes-digit (suc (suc (suc (suc (suc (suc zero)))))) h = refl
codes-digit (suc (suc (suc (suc (suc (suc (suc zero))))))) h = refl
codes-digit (suc (suc (suc (suc (suc (suc (suc (suc zero)))))))) h = refl
codes-digit (suc (suc (suc (suc (suc (suc (suc (suc (suc zero))))))))) h = refl
codes-digit (suc (suc (suc (suc (suc (suc (suc (suc (suc (suc d)))))))))) h = absurd (omega arith)

codes-concat : (s t : String) → codes (concat (s ∷ t ∷ [])) ≡ codes s ++ codes t
codes-concat String.[] t = rw (append.nil t) refl
codes-concat (String.◌∷◌ c s) t = rw (append.cons c s t) (ap (λ l. code c ∷ l) (codes-concat s t))

decimal_from-append :
    (acc : ℕ) (xs ys : List ℕ) → decimal_from acc (xs ++ ys) ≡ decimal_from (decimal_from acc xs) ys
unfolding decimal_from
decimal_from-append acc [] ys = refl
decimal_from-append acc (x ∷ xs) ys = decimal_from-append (acc * 10 + (x - b'0')) xs ys

abbrev tens : ℕ → ℕ
tens zero = 1
tens (suc k) = 10 * tens k

-- The code points of a number's digits.
shape-small : (f n : ℕ) → n < 10 → codes (digits (suc f) n) ≡ (48 + n) ∷ []
unfolding digits
shape-small f n h =
    let small : ltb n 10 ≡ true = ground arith in
    rw small (
      codes-concat "" (digit (n % 10))
      ∙ codes-digit (n % 10) (omega arith)
      ∙ ap (λ d. (48 + d) ∷ []) (omega arith))

shape-large :
    (f n : ℕ) → 10 ≤ n → codes (digits (suc f) n) ≡ codes (digits f (n / 10)) ++ (48 + n % 10) ∷ []
unfolding digits
shape-large f n h =
    let large : ltb n 10 ≡ false = ground arith in
    rw large (
      codes-concat (digits f (n / 10)) (digit (n % 10))
      ∙ ap (λ l. codes (digits f (n / 10)) ++ l) (codes-digit (n % 10) (omega arith)))

-- Digits only, as many as the size says, and the value.
record IsDecimal (k n : ℕ) (cs : List ℕ) : Type 0 where
  digits_only : All (λ c. is_digit c ≡ true) cs
  nonempty : 1 ≤ length cs
  short : length cs ≤ k
  value : decimal_from 0 cs ≡ n

IsDecimal-snoc :
    (k m d : ℕ) (cs : List ℕ)
    → d < 10
    → IsDecimal k m cs
    → IsDecimal (suc k) (m * 10 + d) (cs ++ (48 + d) ∷ [])
unfolding decimal_from
IsDecimal-snoc k m d cs small h = record {
  digits_only =
      All-append (λ c. is_digit c ≡ true) cs ((48 + d) ∷ []) h.digits_only (ground arith, tt);
  nonempty = omega (arith, length-append cs ((48 + d) ∷ []));
  short = omega (arith, h.short, length-append cs ((48 + d) ∷ []));
  value = decimal_from-append 0 cs ((48 + d) ∷ []) ∙ omega (arith, h.value);
}

small-IsDecimal : (k f n : ℕ) → n < 10 → IsDecimal (suc k) n (codes (digits (suc f) n))
unfolding decimal_from
small-IsDecimal k f n h = subst (IsDecimal (suc k) n) (sym (shape-small f n h)) (record {
  digits_only = (ground (arith, h), tt);
  nonempty = omega arith;
  short = omega arith;
  value = omega arith;
})

-- Enough fuel, and the number of digits.
digits-IsDecimal : (k f n : ℕ) → n < tens (suc k) → n < f → IsDecimal (suc k) n (codes (digits f n))
digits-IsDecimal k zero n h enough = absurd (omega arith)
digits-IsDecimal zero (suc f) n h enough = small-IsDecimal zero f n (omega arith)
digits-IsDecimal (suc j) (suc f) n h enough = elim (Bool-cases (ltb n 10)) [
  | inl e ↦ small-IsDecimal (suc j) f n (ltb→lt n 10 e)
  | inr e ↦
      let large = ltb-false n 10 e in
      let front = digits-IsDecimal j f (n / 10) (omega arith) (omega arith) in
      subst (IsDecimal (suc (suc j)) n) (sym (shape-large f n large)) (
        subst (λ m. IsDecimal (suc (suc j)) m (codes (digits f (n / 10)) ++ (48 + n % 10) ∷ []))
          (omega arith)
          (IsDecimal-snoc (suc j) (n / 10) (n % 10) (codes (digits f (n / 10))) (omega arith)
            front))
]

-- The run of digits ends where no digit follows.
span_digits-append :
    (cs rest : List ℕ)
    → All (λ c. is_digit c ≡ true) cs
    → span_digits rest ≡ ([], rest)
    → span_digits (cs ++ rest) ≡ (cs, rest)
unfolding span_digits
span_digits-append [] rest h q = q
span_digits-append (c ∷ cs) rest h q = rw (h.0) (rw (span_digits-append cs rest h.1 q) refl)

group :
    (n : ℕ) (cs rest : List ℕ)
    → n < 100000
    → IsDecimal 5 n cs
    → port_digits (cs, rest) ≡ some (n, rest)
unfolding port_digits atoi
group n cs rest small h =
    let fits : (leb 1 (length cs) && leb (length cs) 5) ≡ true =
      ground (arith, h.nonempty, h.short) in
    rw fits (ap (λ m. some (m, rest)) (omega (arith, h.value, small)))

decimal-IsDecimal : (n : ℕ) → n < 100000 → IsDecimal 5 n (codes (decimal n))
unfolding decimal
decimal-IsDecimal n h = digits-IsDecimal 4 (n + 1) n (omega arith) (omega arith)

-- A number in front of a text that does not start with a digit.
number_before :
    (n : ℕ) (rest : List ℕ)
    → n < 100000
    → span_digits rest ≡ ([], rest)
    → port_digits (span_digits (codes (decimal n) ++ rest)) ≡ some (n, rest)
number_before n rest h q =
    let d = decimal-IsDecimal n h in
    ap port_digits (span_digits-append (codes (decimal n)) rest d.digits_only q)
    ∙ group n (codes (decimal n)) rest h d

number_alone : (n : ℕ) → n < 100000 → port_digits (span_digits (codes (decimal n))) ≡ some (n, [])
unfolding span_digits
number_alone n h =
    ap (λ l. port_digits (span_digits l)) (sym (append-nil (codes (decimal n))))
    ∙ number_before n [] h refl

codes-range : (s t : String) → codes (concat (s ∷ "-" ∷ t ∷ [])) ≡ codes s ++ b'-' ∷ codes t
codes-range s t =
    codes-concat s (concat ("-" ∷ t ∷ [])) ∙ ap (λ l. codes s ++ l) (codes-concat "-" t)

parse-range :
    (lo hi : ℕ)
    → lo < 100000
    → hi < 100000
    → parse_port_string (concat (decimal lo ∷ "-" ∷ decimal hi ∷ []))
      ≡ some (record { lo = lo; hi = hi })
unfolding parse_port_string range_start range_end span_digits
parse-range lo hi a b =
    ap (λ l. range_start (port_digits (span_digits l))) (codes-range (decimal lo) (decimal hi))
    ∙ ap range_start (number_before lo (b'-' ∷ codes (decimal hi)) a refl)
    ∙ ap (range_end lo) (number_alone hi b)

marshal-single : (p : PortRange) → eqb p.lo p.hi ≡ true → marshal p ≡ number p.lo
unfolding marshal
marshal-single p e = rw e refl

marshal-range :
    (p : PortRange)
    → eqb p.lo p.hi ≡ false
    → marshal p ≡ text (concat (decimal p.lo ∷ "-" ∷ decimal p.hi ∷ []))
unfolding marshal port_text
marshal-range p e = rw e refl

-- A PortRange whose ports have at most five digits is read back from the value that it is written as:
-- a number for a single port, a text for a range, also one whose ends are swapped.
pub unmarshal-marshal :
    (p : PortRange) → p.lo < 100000 → p.hi < 100000 → unmarshal (marshal p) ≡ some p
unfolding marshal unmarshal parse_port_string
unmarshal-marshal p a b = elim (Bool-cases (eqb p.lo p.hi)) [
  | inl e ↦
      let same : p.lo ≡ p.hi = ground (arith, e) in
      ap unmarshal (marshal-single p e) ∙ (λ i. some (record { lo = p.lo; hi = same i }))
  | inr e ↦ ap unmarshal (marshal-range p e) ∙ parse-range p.lo p.hi a b
]
