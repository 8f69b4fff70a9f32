-- ===== src/Validator/Groups/Settled.antt =====
-- validator.go, `groups`: what the colours of the search say. An entry that turns a group black stands
-- above those of all groups that it contains.
use songbird_prototypes.Prelude.{
  String, ◌≡◌, refl, inl, inr, true, false, List, [], ◌∷◌, arith, ◌==◌, Bool-cases, lookup, has_key,
  contains,
}
use songbird_prototypes.Validator.Groups.{Graph, white, grey, black, Colours, colour_of, members_in}

-- The groups that are black, the last one first.
unfoldable pub finished : Colours → List String
finished [] = []
finished ((n, white) ∷ c) = finished c
finished ((n, grey) ∷ c) = finished c
finished ((n, black) ∷ c) = n ∷ finished c

unfoldable pub seen : Colours → List String
seen [] = []
seen ((n, k) ∷ c) = n ∷ seen c

module _ (graph : Graph) where
  -- `m` is a group, and a member of the group `n`.
  unfoldable pub Holds : String → String → Type 0
  Holds n m = (contains (members_in (lookup n graph)) m ≡ true) × (has_key m graph ≡ true)

  unfoldable pub IsSettled : Colours → Type 0
  IsSettled [] = Unit {0}
  IsSettled ((n, white) ∷ c) = ⊥
  IsSettled ((n, grey) ∷ c) = IsSettled c
  IsSettled ((n, black) ∷ c) =
      ((m : String) → Holds n m → contains (finished c) m ≡ true) × IsSettled c

  pub black-finished :
      (c : Colours) (n : String) → colour_of n c ≡ black → contains (finished c) n ≡ true
  unfolding colour_of finished
  black-finished [] n h = cc
  black-finished ((x, white) ∷ c) n h = elim (Bool-cases (x == n)) [
    | inl e ↦ absurd (ground (arith, e, h))
    | inr e ↦ black-finished c n (rw e at h)
  ]
  black-finished ((x, grey) ∷ c) n h = elim (Bool-cases (x == n)) [
    | inl e ↦ absurd (ground (arith, e, h))
    | inr e ↦ black-finished c n (rw e at h)
  ]
  black-finished ((x, black) ∷ c) n h = elim (Bool-cases (x == n)) [
    | inl e ↦ rw e
    | inr e ↦ rw e (black-finished c n (rw e at h))
  ]

  pub white-seen :
      (c : Colours) (n : String) → IsSettled c → colour_of n c ≡ white → contains (seen c) n ≡ false
  unfolding colour_of seen IsSettled
  white-seen [] n s h = refl
  white-seen ((x, white) ∷ c) n s h = absurd s
  white-seen ((x, grey) ∷ c) n s h = elim (Bool-cases (x == n)) [
    | inl e ↦ absurd (ground (arith, e, h))
    | inr e ↦ rw e (white-seen c n s (rw e at h))
  ]
  white-seen ((x, black) ∷ c) n s h = elim (Bool-cases (x == n)) [
    | inl e ↦ absurd (ground (arith, e, h))
    | inr e ↦ rw e (white-seen c n s.1 (rw e at h))
  ]

-- What a part of the search keeps: a group that is seen or finished stays so, and no grey is left.
pub record Grows (c c' : Colours) : Type 0 where
  pub finished_kept :
      (x : String) → contains (finished c) x ≡ true → contains (finished c') x ≡ true
  pub seen_kept : (x : String) → contains (seen c) x ≡ true → contains (seen c') x ≡ true
  pub grey_kept : (x : String) → colour_of x c' ≡ grey → colour_of x c ≡ grey

pub Grows-refl : (c : Colours) → Grows c c
Grows-refl c = record { finished_kept = λ x h. h; seen_kept = λ x h. h; grey_kept = λ x h. h }

pub Grows-trans : {a b c : Colours} → Grows a b → Grows b c → Grows a c
Grows-trans g k = record {
  finished_kept = λ x h. k.finished_kept x (g.finished_kept x h);
  seen_kept = λ x h. k.seen_kept x (g.seen_kept x h);
  grey_kept = λ x h. g.grey_kept x (k.grey_kept x h);
}

-- A group turns grey, the search goes on, and it turns black.
pub Grows-visit :
    (n : String) (c c' : Colours) → Grows ((n, grey) ∷ c) c' → Grows c ((n, black) ∷ c')
unfolding finished seen colour_of
Grows-visit n c c' g = record {
  finished_kept = λ x h. ground (arith, g.finished_kept x h);
  seen_kept = λ x h. ground (arith, g.seen_kept x);
  grey_kept = λ x h. elim (Bool-cases (n == x)) [
    | inl e ↦ absurd (ground (arith, e, h))
    | inr e ↦ rw e at (g.grey_kept x (rw e at h))
  ];
}
