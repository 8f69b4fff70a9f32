-- ===== src/Model/Objects/Laws.antt =====
-- tree.go, `List[S]`: what a lookup sees after a `put` or a `remove`, and unique names.
use songbird_prototypes.Prelude.{
  String, ◌≡◌, refl, Bool, true, false, Option, none, some, List, [], ◌∷◌, map, arith, ◌==◌, eq_iff,
  if◌then◌else◌, contains,
}
use songbird_prototypes.Model.Types.{Object}
use songbird_prototypes.Model.Objects.{name_of, put, remove, find}

-- No two objects of the list share a name (DM-01).
abbrev pub IsUnique {ℓ} : {S : Type ℓ} → List (Object S) → Type 0
IsUnique [] = Unit
IsUnique (x ∷ l) = (contains (map name_of l) (name_of x) ≡ false) × IsUnique l

abbrev pub is_some {ℓ} : {A : Type ℓ} → Option A → Bool
is_some none = false
is_some (some _) = true

module _ {ℓ} {S : Type ℓ} where
  pub find-put :
      (o : Object S) (l : List (Object S)) (n : String)
      → find n (put o l) ≡ (if name_of o == n then some o else find n l)
  unfolding find put
  find-put o [] n = refl
  find-put o (x ∷ l) n = ground (
    arith,
    eq_iff (name_of x) (name_of o),
    eq_iff (name_of x) n,
    eq_iff (name_of o) n,
    find-put o l n,
  )

  contains-names-put :
      (o : Object S) (l : List (Object S)) (n : String)
      → (name_of o == n) ≡ false
      → contains (map name_of (put o l)) n ≡ contains (map name_of l) n
  unfolding put
  contains-names-put o [] n h = ground arith
  contains-names-put o (x ∷ l) n h = ground (
    arith,
    eq_iff (name_of x) (name_of o),
    eq_iff (name_of x) n,
    eq_iff (name_of o) n,
    contains-names-put o l n h,
  )

  pub put-IsUnique : (o : Object S) (l : List (Object S)) → IsUnique l → IsUnique (put o l)
  unfolding put
  put-IsUnique o [] h = ground arith
  put-IsUnique o (x ∷ l) h = ground (
    arith,
    eq_iff (name_of x) (name_of o),
    eq_iff (name_of o) (name_of x),
    put-IsUnique o l h.1,
    contains-names-put o l (name_of x),
  )

  pub find_of_not-contains :
      (l : List (Object S)) (n : String) → contains (map name_of l) n ≡ false → find n l ≡ none
  unfolding find
  find_of_not-contains [] n h = refl
  find_of_not-contains (x ∷ l) n h = ground (arith, find_of_not-contains l n)

  pub remove_found : (n : String) (l : List (Object S)) → (remove n l).1 ≡ is_some (find n l)
  unfolding remove find
  remove_found n [] = refl
  remove_found n (x ∷ l) = ground (arith, remove_found n l)

  pub find-remove :
      (n : String) (l : List (Object S)) (k : String)
      → IsUnique l
      → find k (remove n l).0 ≡ (if n == k then none else find k l)
  unfolding remove find
  find-remove n [] k h = ground arith
  find-remove n (x ∷ l) k h = ground (
    arith,
    eq_iff (name_of x) n,
    eq_iff (name_of x) k,
    eq_iff n k,
    find-remove n l k h.1,
    find_of_not-contains l k,
  )

  contains-names-remove :
      (n : String) (l : List (Object S)) (k : String)
      → contains (map name_of l) k ≡ false
      → contains (map name_of (remove n l).0) k ≡ false
  unfolding remove
  contains-names-remove n [] k h = refl
  contains-names-remove n (x ∷ l) k h = ground (arith, contains-names-remove n l k)

  pub remove-IsUnique : (n : String) (l : List (Object S)) → IsUnique l → IsUnique (remove n l).0
  unfolding remove
  remove-IsUnique n [] h = tt
  remove-IsUnique n (x ∷ l) h =
      ground (arith, remove-IsUnique n l h.1, contains-names-remove n l (name_of x) h.0)
