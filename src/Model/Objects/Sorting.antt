-- ===== src/Model/Objects/Sorting.antt =====
-- tree.go, `sortByName`: the result is sorted, and no lookup sees the difference.
use songbird_prototypes.Prelude.{
  String, ◌≡◌, refl, inl, inr, false, some, List, [], ◌∷◌, arith, ◌==◌, eq_iff, if◌then◌else◌,
  Bool-cases, All, text_lt, text_lt_irrefl, text_lt_asym, text_lt_cotrans,
}
use mathlib.Core.List.{Perm}
use mathlib.Core.List.Perm
use songbird_prototypes.Model.Types.{Object}
use songbird_prototypes.Model.Objects.{name_of, find, insert_by_name, sort_by_name}

-- Every name stands before those that are greater.
abbrev pub IsSorted {ℓ} : {S : Type ℓ} → List (Object S) → Type 0
IsSorted [] = Unit
IsSorted (x ∷ l) = All (λ y. text_lt (name_of y) (name_of x) ≡ false) l × IsSorted l

module _ {ℓ} {S : Type ℓ} where
  find-insert_by_name :
      (o : Object S) (l : List (Object S)) (n : String)
      → find n (insert_by_name o l) ≡ (if name_of o == n then some o else find n l)
  unfolding find insert_by_name
  find-insert_by_name o [] n = refl
  find-insert_by_name o (x ∷ l) n = ground (
    arith,
    eq_iff (name_of x) n,
    eq_iff (name_of o) n,
    text_lt_irrefl n,
    find-insert_by_name o l n,
  )

  -- Sorting is stable, so it keeps what a lookup finds, unique names or not.
  pub find-sort_by_name : (l : List (Object S)) (n : String) → find n (sort_by_name l) ≡ find n l
  unfolding find sort_by_name
  find-sort_by_name [] n = refl
  find-sort_by_name (x ∷ l) n =
      ground (arith, find-insert_by_name x (sort_by_name l) n, find-sort_by_name l n)

  insert_by_name-perm : (o : Object S) (l : List (Object S)) → Perm (insert_by_name o l) (o ∷ l)
  unfolding insert_by_name
  insert_by_name-perm o [] = Perm.refl _
  insert_by_name-perm o (x ∷ l) = elim (Bool-cases (text_lt (name_of x) (name_of o))) [
    | inl h ↦ rw h (Perm.trans (Perm.cons x (insert_by_name-perm o l)) (Perm.swap o x l))
    | inr h ↦ rw h (Perm.refl _)
  ]

  pub sort_by_name-perm : (l : List (Object S)) → Perm (sort_by_name l) l
  unfolding sort_by_name
  sort_by_name-perm [] = Perm.refl []
  sort_by_name-perm (x ∷ l) =
      Perm.trans (insert_by_name-perm x (sort_by_name l)) (Perm.cons x (sort_by_name-perm l))

  All-insert :
      (n : String) (o : Object S) (l : List (Object S))
      → text_lt (name_of o) n ≡ false
      → All (λ y. text_lt (name_of y) n ≡ false) l
      → All (λ y. text_lt (name_of y) n ≡ false) (insert_by_name o l)
  unfolding insert_by_name
  All-insert n o [] ho h = (ho, tt)
  All-insert n o (x ∷ l) ho h = elim (Bool-cases (text_lt (name_of x) (name_of o))) [
    | inl e ↦ rw e (h.0, All-insert n o l ho h.1)
    | inr e ↦ rw e (ho, h)
  ]

  All-below :
      (a b : String) (l : List (Object S))
      → text_lt b a ≡ false
      → All (λ y. text_lt (name_of y) b ≡ false) l
      → All (λ y. text_lt (name_of y) a ≡ false) l
  All-below a b [] hab h = tt
  All-below a b (y ∷ l) hab h =
      (ground (arith, text_lt_cotrans (name_of y) b a), All-below a b l hab h.1)

  insert_by_name-IsSorted :
      (o : Object S) (l : List (Object S)) → IsSorted l → IsSorted (insert_by_name o l)
  unfolding insert_by_name
  insert_by_name-IsSorted o [] h = (tt, tt)
  insert_by_name-IsSorted o (x ∷ l) h = elim (Bool-cases (text_lt (name_of x) (name_of o))) [
    | inl e ↦ rw e (
      All-insert (name_of x) o l (text_lt_asym (name_of x) (name_of o) e) h.0,
      insert_by_name-IsSorted o l h.1,
    )
    | inr e ↦ rw e ((e, All-below (name_of o) (name_of x) l e h.0), h)
  ]

  pub sort_by_name-IsSorted : (l : List (Object S)) → IsSorted (sort_by_name l)
  unfolding sort_by_name
  sort_by_name-IsSorted [] = tt
  sort_by_name-IsSorted (x ∷ l) =
      insert_by_name-IsSorted x (sort_by_name l) (sort_by_name-IsSorted l)

  -- `sortByName` gives a sorted list of the same objects, in which every lookup finds what it found
  -- before, also where names repeat.
  pub sort_by_name_lem :
      (l : List (Object S))
      → IsSorted (sort_by_name l)
        × Perm (sort_by_name l) l
        × ((n : String) → find n (sort_by_name l) ≡ find n l)
  sort_by_name_lem l = (sort_by_name-IsSorted l, sort_by_name-perm l, find-sort_by_name l)
