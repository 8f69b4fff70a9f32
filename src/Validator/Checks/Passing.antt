-- ===== src/Validator/Checks/Passing.antt =====
-- validator.go: what holds after a check that reported no error, with a rule for each way to build one.
use songbird_prototypes.Prelude.{
  ℕ, ◌+◌, String, ◌≡◌, refl, sym, ap, ◌∙◌, Bool, true, false, ◌&&◌, ◌||◌, not, Option, none, some,
  List, [], ◌∷◌, ◌++◌, map, arith, ◌==◌, eq_refl, if◌then◌else◌, All, is_empty, lookup, contains,
  concat, join, quoted,
}
use mathlib.Core.List.{map-append}
use songbird_prototypes.Model.Tree.{Doc, header}
use songbird_prototypes.Validator.Errors.{Error, errors}
use songbird_prototypes.Validator.Checks.{
  Located, Place, NameSpace, Check, return, ◌>>=◌, ◌>>◌, done, add, err, when, given, for, for_from,
  ref_to, ref_in, ref, kind_of,
}

pub errors-append : (xs ys : List Error) → errors (xs ++ ys) ≡ errors xs ++ errors ys
unfolding errors
errors-append [] ys = refl
errors-append (e ∷ xs) ys = ground (arith, errors-append xs ys)

-- A run that reports no error has a result that meets `Q`.
unfoldable pub Passes : {A : Type 0} → Check A → (A → Type 0) → Type 0
Passes m Q = (p : Place) → errors (map (λ l. l.error) (m p).found) ≡ [] → Q (m p).result

append-eq-nil : {A : Type 0} (xs ys : List A) → xs ++ ys ≡ [] → (xs ≡ []) × (ys ≡ [])
append-eq-nil [] ys h = (refl, h)
append-eq-nil (x ∷ xs) ys h = absurd (ground arith)

module _ {A : Type 0} (Q : A → Type 0) where
  pub Passes-return : (a : A) → Q a → Passes (return a) Q
  unfolding Passes return
  Passes-return a q p c = q

  -- What the first check established is a hypothesis of what the second has to.
  pub Passes-bind :
      {B : Type 0} (R : B → Type 0) (m : Check B) (f : B → Check A)
      → Passes m R
      → ((b : B) → R b → Passes (f b) Q)
      → Passes (m >>= f) Q
  unfolding Passes ◌>>=◌
  Passes-bind R m f pm pf p c =
      let r = m p in
      let split =
        append-eq-nil (errors (map (λ (l : Located). l.error) r.found))
          (errors (map (λ (l : Located). l.error) (f r.result r.place).found))
          (sym (
              ap errors (map-append (λ (l : Located). l.error) r.found (f r.result r.place).found)
              ∙ errors-append (map (λ (l : Located). l.error) r.found)
                  (map (λ (l : Located). l.error) (f r.result r.place).found))
            ∙ c) in
      pf r.result (pm p split.0) r.place split.1

  pub Passes-if :
      (b : Bool) (m n : Check A)
      → (b ≡ true → Passes m Q)
      → (b ≡ false → Passes n Q)
      → Passes (if b then m else n) Q
  Passes-if true m n p q = p refl
  Passes-if false m n p q = q refl

pub Passes-weaken :
    {A : Type 0} {Q R : A → Type 0} (m : Check A) → ((a : A) → R a → Q a) → Passes m R → Passes m Q
unfolding Passes
Passes-weaken m f pm p c = f (m p).result (pm p c)

-- Nothing is known of the result.
pub Passes-any : {A : Type 0} (m : Check A) → Passes m (λ a. Unit {0})
unfolding Passes
Passes-any m p c = tt

-- The first of two checks has passed, or the second.
pub Passes-first :
    {A : Type 0} (P : Type 0) (m : Check (Unit {0})) (k : Check A)
    → Passes m (λ u. P)
    → Passes (m >> k) (λ a. P)
Passes-first P m k p =
    Passes-bind (λ a. P) (λ u. P) m (λ u. k) p (λ u h. Passes-weaken k (λ a u. h) (Passes-any k))

pub Passes-second :
    {A : Type 0} (Q : A → Type 0) (m : Check (Unit {0})) (k : Check A)
    → Passes k Q
    → Passes (m >> k) Q
Passes-second Q m k p = Passes-bind Q (λ u. Unit {0}) m (λ u. k) (Passes-any m) (λ u h. p)

pub Passes-both :
    (P R : Type 0) (m k : Check (Unit {0}))
    → Passes m (λ u. P)
    → Passes k (λ u. R)
    → Passes (m >> k) (λ u. P × R)
Passes-both P R m k p q =
    Passes-bind (λ u. P × R) (λ u. P) m (λ u. k) p (λ u h. Passes-weaken k (λ u r. (h, r)) q)

errors-single : (e : Error) → errors (e ∷ []) ≡ [] → (e.severity == "error") ≡ false
unfolding errors
errors-single e h = ground (arith, h)

-- An error is no passing run.
pub Passes-err :
    (Q : Unit {0} → Type 0) (rule dm path reason : String) → Passes (err rule dm path reason) Q
unfolding Passes err add
Passes-err Q rule dm path reason p c = absurd (
    ground (
      arith,
      errors-single
          (record {
            file = p.file;
            line = 0;
            path = path;
            reason = reason;
            rule = rule;
            constraint = dm;
            severity = "error";
          })
          c,
      eq_refl "error",
    ))

pub Passes-refused :
    {A : Type 0} (Q : A → Type 0) (rule dm path reason : String) (a : A)
    → Passes (err rule dm path reason >> return a) Q
Passes-refused Q rule dm path reason a =
    Passes-bind Q (λ u. Q a) (err rule dm path reason) (λ u. return a)
      (Passes-err (λ u. Q a) _ _ _ _) (λ u q. Passes-return Q a q)

-- A guard that reports an error: the run passes only if the guard is not met.
pub Passes-when-err :
    (b : Bool) (rule dm path reason : String)
    → Passes (when b (err rule dm path reason)) (λ u. b ≡ false)
unfolding when
Passes-when-err b rule dm path reason =
    Passes-if (λ u. b ≡ false) b (err rule dm path reason) done
      (λ e. Passes-err (λ u. b ≡ false) _ _ _ _) (λ e. Passes-return (λ u. b ≡ false) tt e)

module _ {A : Type 0} where
  -- A value that must not be there.
  pub Passes-given-err :
      (o : Option A) (f : A → Check (Unit {0}))
      → ((a : A) → Passes (f a) (λ u. some a ≡ none))
      → Passes (given o f) (λ u. o ≡ none)
  unfolding given
  Passes-given-err none f p = Passes-return (λ u. none ≡ none) tt refl
  Passes-given-err (some a) f p = p a

  pub Passes-for :
      (P : A → Type 0) (xs : List A) (f : A → Check (Unit {0}))
      → ((x : A) → Passes (f x) (λ u. P x))
      → Passes (for xs f) (λ u. All P xs)
  unfolding for
  Passes-for P [] f p = Passes-return (λ u. Unit {0}) tt tt
  Passes-for P (x ∷ xs) f p =
      Passes-both (P x) (All P xs) (f x) (for xs f) (p x) (Passes-for P xs f p)

  pub Passes-for_from :
      (P : A → Type 0) (k : ℕ) (xs : List A) (f : ℕ → A → Check (Unit {0}))
      → ((i : ℕ) (x : A) → Passes (f i x) (λ u. P x))
      → Passes (for_from k xs f) (λ u. All P xs)
  unfolding for_from
  Passes-for_from P k [] f p = Passes-return (λ u. Unit {0}) tt tt
  Passes-for_from P k (x ∷ xs) f p =
      Passes-both (P x) (All P xs) (f k x) (for_from (k + 1) xs f) (p k x)
        (Passes-for_from P (k + 1) xs f p)

-- A reference that raised no error has a target, of an allowed kind.
unfoldable pub IsTarget : NameSpace → String → List String → Option Doc → Type 0
IsTarget ns name kinds r =
    (o : Doc) × (r ≡ some o)
    × (lookup name ns ≡ some o)
    × ((is_empty kinds || contains kinds (header o).0) ≡ true)

Passes-ref_to :
    (ns : NameSpace) (o : Doc) (name path : String) (kinds : List String)
    → lookup name ns ≡ some o
    → Passes (ref_to o name path kinds) (IsTarget ns name kinds)
unfolding ref_to kind_of IsTarget
Passes-ref_to ns o name path kinds e =
    let wrong = not (is_empty kinds) && not (contains kinds (header o).0) in
    let reason =
      concat (quoted name ∷ " is a " ∷ (header o).0 ∷ ", expected " ∷ join " or " kinds ∷ []) in
    Passes-if (IsTarget ns name kinds) wrong (err "wrong-kind" "DM-02" path reason >> return none)
      (return (some o)) (λ h. Passes-refused (IsTarget ns name kinds) _ _ _ _ _)
      (λ h. Passes-return (IsTarget ns name kinds) (some o) (o, refl, e, ground (arith, h)))

pub Passes-ref :
    (ns : NameSpace) (name path : String) (kinds : List String)
    → Passes (ref ns name path kinds) (IsTarget ns name kinds)
unfolding ref ref_in
Passes-ref ns name path kinds = found (lookup name ns) refl
  where
    found :
        (r : Option Doc)
        → lookup name ns ≡ r
        → Passes (ref_in r name path kinds) (IsTarget ns name kinds)
    found none e = Passes-refused (IsTarget ns name kinds) _ _ _ _ _
    found (some o) e = Passes-ref_to ns o name path kinds e
