-- ===== src/Events/Classify/Firsts.antt =====
-- classify.go: the first element of a list that a loop stops at.
use songbird_prototypes.Prelude.{◌≡◌, refl, ap, Bool, true, false, List, [], ◌∷◌, ◌++◌, All}
use songbird_prototypes.Model.Types.{Rule}

unfoldable pub Among {ℓ} : {A : Type ℓ} → A → List A → Type ℓ
Among {A = A} x xs = (front : List A) × (back : List A) × (xs ≡ front ++ x ∷ back)

-- The first rule of the list that meets the test.
unfoldable pub IsFirst : (Rule → Bool) → Rule → List Rule → Type 0
IsFirst test r rules =
    (front : List Rule) × (back : List Rule) × (rules ≡ front ++ r ∷ back)
    × (test r ≡ true)
    × All (λ e. test e ≡ false) front

pub IsFirst-here :
    (test : Rule → Bool) (r : Rule) (rest : List Rule) → test r ≡ true → IsFirst test r (r ∷ rest)
unfolding IsFirst
IsFirst-here test r rest h = ([], rest, refl, h, tt)

pub IsFirst-later :
    (test : Rule → Bool) (e r : Rule) (rest : List Rule)
    → test e ≡ false
    → IsFirst test r rest
    → IsFirst test r (e ∷ rest)
unfolding IsFirst
IsFirst-later test e r rest h (front, back, split, ok, earlier) =
    (e ∷ front, back, ap (λ l. e ∷ l) split, ok, (h, earlier))

pub Among-later {ℓ} : {A : Type ℓ} (x y : A) (xs : List A) → Among x xs → Among x (y ∷ xs)
unfolding Among
Among-later x y xs (front, back, split) = (y ∷ front, back, ap (λ l. y ∷ l) split)
