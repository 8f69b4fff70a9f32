-- ===== src/Validator/Names/Unique.antt =====
-- validator.go, `names`: when no name is refused, no two objects share a name in a name space.
use songbird_prototypes.Prelude.{
  ◌≡◌, refl, sym, subst, inl, inr, Option, none, some, List, [], ◌∷◌, ◌==◌, Bool-cases, All, lookup,
  ne_of_test,
}
use mathlib.Core.Option.{none-ne-some}
use songbird_prototypes.Model.Tree.{Doc, Tree}
use songbird_prototypes.Model.Edits.{each}
use songbird_prototypes.Validator.Checks.{at, fold}
use songbird_prototypes.Validator.Checks.Passing.{
  Passes, Passes-return, Passes-bind, Passes-second, Passes-refused, Passes-weaken,
}
use songbird_prototypes.Validator.Names.{
  Registry, in_space, space_of, doc_name, claim, register, names,
}

-- Two objects that have the same name in the same name space.
unfoldable pub Clash : Doc → Doc → Type 0
Clash x y = (space_of x ≡ space_of y) × (doc_name x ≡ doc_name y)

-- No two objects of the list clash.
abbrev pub NamesAreUnique : List Doc → Type 0
NamesAreUnique [] = Unit {0}
NamesAreUnique (x ∷ xs) = All (λ y. Clash x y → ⊥) xs × NamesAreUnique xs

unfoldable pub IsFree : Registry → Doc → Type 0
IsFree m y = lookup (doc_name y) (in_space (space_of y) m) ≡ none

IsFree-cons :
    (m : Registry) (x y : Doc)
    → IsFree ((space_of x, doc_name x, x) ∷ m) y
    → IsFree m y × (Clash x y → ⊥)
unfolding IsFree Clash in_space
IsFree-cons m x y h = elim (Bool-cases (space_of x == space_of y)) [
  | inl e ↦ elim (Bool-cases (doc_name x == doc_name y)) [
    | inl k ↦ absurd (none-ne-some x (sym (rw (e, k) at h)))
    | inr k ↦ (rw (e, k) at h, λ c. ne_of_test _ _ k c.1)
  ]
  | inr e ↦ (rw e at h, λ c. ne_of_test _ _ e c.0)
]

claim-Passes :
    (o : Option Doc) (x : Doc) (m : Registry)
    → Passes (claim o x m) (λ m'. (o ≡ none) × (m' ≡ (space_of x, doc_name x, x) ∷ m))
unfolding claim
claim-Passes none x m =
    Passes-return (λ m'. (none ≡ none) × (m' ≡ (space_of x, doc_name x, x) ∷ m))
      ((space_of x, doc_name x, x) ∷ m) (refl, refl)
claim-Passes (some other) x m =
    Passes-refused (λ m'. (some other ≡ none) × (m' ≡ (space_of x, doc_name x, x) ∷ m)) _ _ _ _ _

register-Passes :
    (x : Doc) (m : Registry)
    → Passes (register x m) (λ m'. IsFree m x × (m' ≡ (space_of x, doc_name x, x) ∷ m))
unfolding register IsFree
register-Passes x m =
    Passes-second _ (at x) _ (claim-Passes (lookup (doc_name x) (in_space (space_of x) m)) x m)

All-split :
    {A : Type 0} (P Q R : A → Type 0) (xs : List A)
    → ((x : A) → P x → Q x × R x)
    → All P xs
    → All Q xs × All R xs
All-split P Q R [] f h = (tt, tt)
All-split P Q R (x ∷ xs) f h =
    let (q, r) = f x h.0 in let (qs, rs) = All-split P Q R xs f h.1 in ((q, qs), (r, rs))

registered :
    (xs : List Doc) (m : Registry)
    → Passes (fold xs register m) (λ m'. All (IsFree m) xs × NamesAreUnique xs)
unfolding fold
registered [] m = Passes-return (λ m'. Unit {0} × Unit {0}) m (tt, tt)
registered (x ∷ xs) m =
    Passes-bind (λ m'. All (IsFree m) (x ∷ xs) × NamesAreUnique (x ∷ xs))
      (λ m'. IsFree m x × (m' ≡ (space_of x, doc_name x, x) ∷ m)) (register x m) (fold xs register)
      (register-Passes x m)
      (λ m' (free, e).
        Passes-weaken (fold xs register m')
          (λ m'' (frees, unique).
            let (old, new) =
              All-split (IsFree m') (IsFree m) (λ y. Clash x y → ⊥) xs
                (λ y h. IsFree-cons m x y (subst (λ r. IsFree r y) e h)) frees in
            ((free, old), (new, unique)))
          (registered xs m'))

pub names-Passes : (t : Tree) → Passes (names t) (λ m. NamesAreUnique (each t))
unfolding names
names-Passes t = Passes-weaken (names t) (λ m h. h.1) (registered (each t) [])
