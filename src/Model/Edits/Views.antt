-- ===== src/Model/Edits/Views.antt =====
-- tree.go: a lookup by kind and name after `Put`, `Delete` and `Sort`.
use songbird_prototypes.Prelude.{
  String, ◌≡◌, refl, sym, ap, ◌∙◌, subst, inl, inr, Bool, true, false, ◌&&◌, Option, none, some,
  List, [], ◌∷◌, arith, ◌==◌, eq_iff, if◌then◌else◌, Bool-cases, Option-cases,
}
use songbird_prototypes.Model.Objects
use songbird_prototypes.Model.Objects.{name_of, find}
use songbird_prototypes.Model.Objects.Laws.{
  IsUnique, is_some, find-remove, remove_found, put-IsUnique, remove-IsUnique,
}
use songbird_prototypes.Model.Objects.Sorting.{find-sort_by_name}
use songbird_prototypes.Model.Types.{Object, Meta}
use songbird_prototypes.Model.Tree.{
  Doc, as_object, header, KindName, Tree, SpecOf, objects, with_objects, list_kind, kind_names,
}
use songbird_prototypes.Model.Edits.{get_in, put, put_in, get, delete, delete_in, sort, sort_kinds}
use songbird_prototypes.Model.Edits.Laws.{
  get_in_ne, get_in-put_self, get_in-eq-wrap, wrap, list_kind_ne, header-to_doc, to_doc-as_object,
  objects-with_objects, objects-with_objects_ne, KindName-discrete,
}

select_same :
    (s r : String) (k : KindName) → list_kind s ≡ some k → (s == r) ≡ true → list_kind r ≡ some k
select_same s r k p h = subst (λ x. list_kind x ≡ some k) ((eq_iff s r).0 h) p

-- A lookup of another kind, when the list of kind `k`, which the text `s` selects, is rewritten.
get-with_objects_ne :
    (s r n : String) (k : KindName) (l : List (Object (SpecOf k))) (t : Tree)
    → list_kind s ≡ some k
    → (s == r) ≡ false
    → get (with_objects k l t) r n ≡ get t r n
unfolding get
get-with_objects_ne s r n k l t p h = elim (Option-cases (list_kind r)) [
  | inl e ↦ rw e (unfold get_in in refl)
  | inr (j, e) ↦ rw e (get_in_ne k j l t n (list_kind_ne s r k j p e h))
]

-- The list that a successful `Put` writes.
put_in-eq_some :
    (m : Option KindName) (t t' : Tree) (d : Doc)
    → put_in m t d ≡ some t'
    → (k : KindName) × (o : Object (SpecOf k)) × (m ≡ some k)
      × (as_object k d ≡ some o)
      × (t' ≡ with_objects k (Objects.put o (objects k t)) t)
unfolding put_in
put_in-eq_some none t t' d h = cc
put_in-eq_some (some k) t t' d h = elim (Option-cases (as_object k d)) [
  | inl e ↦ cc
  | inr (o, e) ↦ (k, o, refl, e, ground arith)
]

name_of-as_object :
    (k : KindName) (d : Doc) (o : Object (SpecOf k))
    → as_object k d ≡ some o
    → (header d).1.name ≡ name_of o
name_of-as_object k d o h =
    ap (λ x. (header x).1.name) (sym (to_doc-as_object k d o h))
    ∙ ap (λ (x : String × Meta). x.1.name) (header-to_doc k o)

get-put_at :
    (t : Tree) (d : Doc) (k : KindName) (o : Object (SpecOf k)) (kind n : String)
    → list_kind (header d).0 ≡ some k
    → as_object k d ≡ some o
    → get (with_objects k (Objects.put o (objects k t)) t) kind n
      ≡ (if ((header d).0 == kind) && ((header d).1.name == n) then some d else get t kind n)
get-put_at t d k o kind n p q = elim (Bool-cases ((header d).0 == kind)) [
  | inl e ↦
      rw (e, name_of-as_object k d o q)
        (unfold get in
          rw (select_same (header d).0 kind k p e) (
            get_in-put_self k t o n
            ∙ ap (λ x. if name_of o == n then some x else get_in (some k) t n)
                (to_doc-as_object k d o q)))
  | inr e ↦ rw e (get-with_objects_ne (header d).0 kind n k _ t p e)
]

-- After a successful `Put` the object is found under its kind and name, and every other lookup is
-- as before.
pub get-put :
    (t t' : Tree) (d : Doc) (kind n : String)
    → put t d ≡ some t'
    → get t' kind n
      ≡ (if ((header d).0 == kind) && ((header d).1.name == n) then some d else get t kind n)
unfolding put
get-put t t' d kind n h =
    let (k, o, p, q, e) = put_in-eq_some (list_kind (header d).0) t t' d h in
    rw e (get-put_at t d k o kind n p q)

-- The names of each kind are unique in the tree.
abbrev pub TreeIsUnique : Tree → Type 0
TreeIsUnique t = (k : KindName) → IsUnique (objects k t)

wrap_if :
    (k : KindName) (b : Bool) (m : Option (Object (SpecOf k)))
    → wrap k (if b then none else m) ≡ (if b then none else wrap k m)
unfolding wrap
wrap_if k true m = refl
wrap_if k false m = refl

get-delete_at :
    (t : Tree) (s name r n : String) (m : Option KindName)
    → list_kind s ≡ m
    → TreeIsUnique t
    → get (delete_in m t name).0 r n ≡ (if (s == r) && (name == n) then none else get t r n)
unfolding delete_in
get-delete_at t s name r n none p u = elim (Bool-cases (s == r)) [
  | inl e ↦ rw e (
      unfold get get_in in rw (subst (λ x. list_kind x ≡ none) ((eq_iff s r).0 e) p) (ground arith))
  | inr e ↦ rw e
]
get-delete_at t s name r n (some k) p u = elim (Bool-cases (s == r)) [
  | inl e ↦ rw e (
      unfold get in
      rw (select_same s r k p e) (
        get_in-eq-wrap k _ n
        ∙ ap (wrap k)
            (ap (find n) (objects-with_objects k _ t) ∙ find-remove name (objects k t) n (u k))
        ∙ wrap_if k (name == n) (find n (objects k t))
        ∙ ap (λ x. if name == n then none else x) (sym (get_in-eq-wrap k t n))))
  | inr e ↦ rw e (get-with_objects_ne s r n k _ t p e)
]

is_some-wrap : (k : KindName) (m : Option (Object (SpecOf k))) → is_some (wrap k m) ≡ is_some m
unfolding wrap
is_some-wrap k none = refl
is_some-wrap k (some o) = refl

delete_in_found :
    (t : Tree) (name : String) (m : Option KindName)
    → (delete_in m t name).1 ≡ is_some (get_in m t name)
unfolding delete_in
delete_in_found t name none = unfold get_in in refl
delete_in_found t name (some k) =
    remove_found name (objects k t)
    ∙ sym (is_some-wrap k (find name (objects k t)))
    ∙ ap is_some (sym (get_in-eq-wrap k t name))

-- Where the names of each kind are unique, `Delete` reports whether the object was there, after it
-- the object is gone, and every other lookup is as before.
pub get-delete :
    (t : Tree) (kind name r n : String)
    → TreeIsUnique t
    → ((delete t kind name).1 ≡ is_some (get t kind name))
      × (get (delete t kind name).0 r n ≡ (if (kind == r) && (name == n) then none else get t r n))
unfolding delete
get-delete t kind name r n u = (
  unfold get in delete_in_found t name (list_kind kind),
  get-delete_at t kind name r n (list_kind kind) refl u,
)

get-sort_one :
    (k : KindName) (t : Tree) (r n : String)
    → get (with_objects k (Objects.sort_by_name (objects k t)) t) r n ≡ get t r n
unfolding get
get-sort_one k t r n = elim (Option-cases (list_kind r)) [
  | inl e ↦ rw e (unfold get_in in refl)
  | inr (j, e) ↦ rw e (elim (KindName-discrete k j) [
    | yes q ↦
        let sorted : Tree = with_objects k (Objects.sort_by_name (objects k t)) t in
        subst (λ x. get_in (some x) sorted n ≡ get_in (some x) t n) q
          (get_in-eq-wrap k sorted n
            ∙ ap (wrap k)
                (ap (find n) (objects-with_objects k _ t) ∙ find-sort_by_name (objects k t) n)
            ∙ sym (get_in-eq-wrap k t n))
    | no q ↦ get_in_ne k j _ t n q
  ])
]

get-sort_kinds :
    (ks : List KindName) (t : Tree) (r n : String) → get (sort_kinds ks t) r n ≡ get t r n
unfolding sort_kinds
get-sort_kinds [] t r n = refl
get-sort_kinds (k ∷ ks) t r n =
    get-sort_kinds ks (with_objects k (Objects.sort_by_name (objects k t)) t) r n
    ∙ get-sort_one k t r n

-- `Sort` changes no lookup.
pub get-sort : (t : Tree) (kind n : String) → get (sort t) kind n ≡ get t kind n
unfolding sort
get-sort t kind n = get-sort_kinds kind_names t kind n

with_objects-TreeIsUnique :
    (k : KindName) (l : List (Object (SpecOf k))) (t : Tree)
    → IsUnique l
    → TreeIsUnique t
    → TreeIsUnique (with_objects k l t)
with_objects-TreeIsUnique k l t h u j = elim (KindName-discrete k j) [
  | yes q ↦
      subst (λ x. IsUnique (objects x (with_objects k l t))) q (rw (objects-with_objects k l t) h)
  | no q ↦ rw (objects-with_objects_ne k j l t q) (u j)
]

delete_in-TreeIsUnique :
    (m : Option KindName) (t : Tree) (name : String)
    → TreeIsUnique t
    → TreeIsUnique (delete_in m t name).0
unfolding delete_in
delete_in-TreeIsUnique none t name u = u
delete_in-TreeIsUnique (some k) t name u =
    with_objects-TreeIsUnique k (Objects.remove name (objects k t)).0 t
      (remove-IsUnique name (objects k t) (u k)) u

-- `Put` and `Delete` keep the names of each kind unique.
pub edits-TreeIsUnique :
    (t : Tree)
    → TreeIsUnique t
    → ((d : Doc) (t' : Tree) → put t d ≡ some t' → TreeIsUnique t')
      × ((kind name : String) → TreeIsUnique (delete t kind name).0)
unfolding put delete
edits-TreeIsUnique t u = (
  λ d t' h.
      let (k, o, p, q, e) = put_in-eq_some (list_kind (header d).0) t t' d h in
      rw e (
        with_objects-TreeIsUnique k (Objects.put o (objects k t)) t
          (put-IsUnique o (objects k t) (u k)) u),
  λ kind name. delete_in-TreeIsUnique (list_kind kind) t name u,
)
