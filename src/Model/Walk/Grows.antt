-- ===== src/Model/Walk/Grows.antt =====
-- tree.go, `walk`: what a visit adds to the state. Every name that it marks as seen is done with:
-- its object is in the output, or the members of its group are seen too. The fuel is enough when it
-- is above the number of groups that are not seen yet.
use songbird_prototypes.Prelude.{
  ℕ, zero, suc, ◌+◌, ◌≤◌, ◌<◌, String, ◌≡◌, refl, sym, ◌∙◌, subst, ◌⊎◌, inl, inr, true, false,
  Option, none, some, List, [], ◌∷◌, ◌++◌, arith, ◌==◌, eq_iff, eq_refl, if◌then◌else◌, Bool-cases,
  Option-cases, length, all, contains,
}
use mathlib.Core.List.{Memᴰ}
use mathlib.Core.List.Memᴰ
use mathlib.Core.Option.{some-injective}
use songbird_prototypes.Model.Walk.{State, walk, walk_all}

contains-tail :
    (n x : String) (xs : List String)
    → contains (n ∷ xs) x ≡ true
    → (n == x) ≡ false
    → contains xs x ≡ true
contains-tail n x xs h e = ground arith

contains-head : (n : String) (xs : List String) → contains (n ∷ xs) n ≡ true
contains-head n xs = rw (eq_refl n)

-- The names that are not seen yet.
pub unseen : List String → List String → ℕ
unseen [] seen = 0
unseen (g ∷ gs) seen = (if contains seen g then 0 else 1) + unseen gs seen

pub unseen-le-length : (gs seen : List String) → unseen gs seen ≤ length gs
unfolding unseen
unseen-le-length [] seen = omega arith
unseen-le-length (g ∷ gs) seen = ground (arith, unseen-le-length gs seen)

pub unseen_mono :
    (gs seen seen' : List String)
    → ((x : String) → contains seen x ≡ true → contains seen' x ≡ true)
    → unseen gs seen' ≤ unseen gs seen
unfolding unseen
unseen_mono [] seen seen' h = omega arith
unseen_mono (g ∷ gs) seen seen' h = ground (arith, h g, unseen_mono gs seen seen' h)

-- Seeing a listed name for the first time leaves fewer to see.
pub unseen-cons :
    (gs seen : List String) (n : String)
    → contains gs n ≡ true
    → contains seen n ≡ false
    → unseen gs (n ∷ seen) < unseen gs seen
unfolding unseen
unseen-cons [] seen n h e = cc
unseen-cons (g ∷ gs) seen n h e = ground (
  arith,
  eq_iff g n,
  eq_iff n g,
  unseen-cons gs seen n,
  unseen_mono gs seen (n ∷ seen) (λ x p. ground arith),
)

module _ {ℓ} {A : Type ℓ} (leaf : String → Option A) (group : String → Option (List String)) where
  pub record Done (s : State A) (x : String) : Type ℓ where
    pub leaf_out : (a : A) → leaf x ≡ some a → Memᴰ a s.out
    pub members_seen :
        leaf x ≡ none
        → (ms : List String) → group x ≡ some ms
        → (m : String) → contains ms m ≡ true
        → contains s.seen m ≡ true

  pub record Grows (s s' : State A) : Type ℓ where
    pub seen_kept : (x : String) → contains s.seen x ≡ true → contains s'.seen x ≡ true
    pub out_kept : (a : A) → Memᴰ a s.out → Memᴰ a s'.out
    pub new_done : (x : String) → contains s'.seen x ≡ true → (contains s.seen x ≡ true) ⊎ Done s' x

  pub Grows-refl : (s : State A) → Grows s s
  Grows-refl s = record { seen_kept = λ x h. h; out_kept = λ a h. h; new_done = λ x h. inl h }

  Done-Grows : {s s' : State A} (x : String) → Grows s s' → Done s x → Done s' x
  Done-Grows x g d = record {
    leaf_out = λ a h. g.out_kept a (d.leaf_out a h);
    members_seen = λ h ms e m c. g.seen_kept m (d.members_seen h ms e m c);
  }

  pub Grows-trans : {s t u : State A} → Grows s t → Grows t u → Grows s u
  Grows-trans g k = record {
    seen_kept = λ x h. k.seen_kept x (g.seen_kept x h);
    out_kept = λ a h. k.out_kept a (g.out_kept a h);
    new_done = λ x h. elim (k.new_done x h) [
      | inl old ↦ elim (g.new_done x old) [
        | inl older ↦ inl older
        | inr done ↦ inr (Done-Grows x k done)
      ]
      | inr done ↦ inr done
    ];
  }

  -- Marking `n` and then growing is growing, where `n` is done with in the end.
  Grows-visited :
      {s s' t : State A} (n : String)
      → t.seen ≡ n ∷ s.seen
      → t.out ≡ s.out
      → Grows t s'
      → Done s' n
      → Grows s s'
  Grows-visited {s} {s'} {t} n es eo g d = record {
    seen_kept = λ x h. g.seen_kept x (rw es (ground arith));
    out_kept = λ a h. g.out_kept a (rw eo h);
    new_done = λ x h. elim (g.new_done x h) [
      | inl old ↦ elim (Bool-cases (n == x)) [
        | inl e ↦ inr (subst (Done s') ((eq_iff n x).0 e) d)
        | inr e ↦ inl (contains-tail n x s.seen (subst (λ y. contains y x ≡ true) es old) e)
      ]
      | inr done ↦ inr done
    ];
  }

  -- The three ways in which a visit of a new name ends.
  abbrev visited : String → State A → State A
  visited n s = record s { seen = n ∷ s.seen }

  Grows-leaf :
      (n : String) (s : State A) (a : A)
      → leaf n ≡ some a
      → Grows s (record { seen = n ∷ s.seen; out = s.out ++ a ∷ [] })
  Grows-leaf n s a e = record {
    seen_kept = λ x h. ground arith;
    out_kept = λ b h. Memᴰ.append_left (a ∷ []) h;
    new_done = λ x h. elim (Bool-cases (n == x)) [
      | inl same ↦ inr (record {
        leaf_out =
            λ b eb. Memᴰ.append_right s.out (Memᴰ.head (ground (arith, (eq_iff n x).0 same)));
        members_seen = λ none_x. absurd (ground (arith, (eq_iff n x).0 same));
      })
      | inr other ↦ inl (contains-tail n x s.seen h other)
    ];
  }

  Grows-unknown :
      (n : String) (s : State A) → leaf n ≡ none → group n ≡ none → Grows s (visited n s)
  Grows-unknown n s el eg =
      Grows-visited n refl refl (Grows-refl (visited n s))
        (record { leaf_out = λ b eb. cc; members_seen = λ none_n ms eb. cc })

  Grows-group :
      (n : String) (s s' : State A) (ms : List String)
      → leaf n ≡ none
      → group n ≡ some ms
      → Grows (visited n s) s' × ((m : String) → contains ms m ≡ true → contains s'.seen m ≡ true)
      → Grows s s' × (contains s'.seen n ≡ true)
  Grows-group n s s' ms el eg (g, all) = (
    Grows-visited n refl refl g (record {
      leaf_out = λ b eb. cc;
      members_seen = λ none_n ms' eb m c.
          all m (subst (λ l. contains l m ≡ true) (some-injective ms' ms (sym eb ∙ eg)) c);
    }),
    g.seen_kept n (contains-head n s.seen),
  )

  module _ (w : String → State A → State A) (names : List String) (k : ℕ)
      (visits : (n : String) (s : State A)
        → unseen names s.seen < k
        → Grows s (w n s) × (contains (w n s).seen n ≡ true)) where
    walk_all-Grows :
        (ms : List String) (s : State A)
        → unseen names s.seen < k
        → Grows s (walk_all w ms s)
          × ((m : String) → contains ms m ≡ true → contains (walk_all w ms s).seen m ≡ true)
    unfolding walk_all
    walk_all-Grows [] s h = (Grows-refl s, λ m c. cc)
    walk_all-Grows (m ∷ ms) s h =
        let (g, marked) = visits m s h in
        let less : unseen names (w m s).seen < k =
          omega (arith, unseen_mono names s.seen (w m s).seen g.seen_kept) in
        let (rest, all) = walk_all-Grows ms (w m s) less in
        (
          Grows-trans g rest,
          λ x c. elim (Bool-cases (m == x)) [
            | inl e ↦
                rest.seen_kept x
                  (subst (λ y. contains (w m s).seen y ≡ true) ((eq_iff m x).0 e) marked)
            | inr e ↦ all x (contains-tail m x ms c e)
          ],
        )

  module _ (names : List String)
      (known : (n : String) (ms : List String) → group n ≡ some ms → contains names n ≡ true) where
    -- With enough fuel a visit marks its name, and is done with whatever it marks.
    pub walk-Grows :
        (f : ℕ) (n : String) (s : State A)
        → unseen names s.seen < f
        → Grows s (walk leaf group f n s) × (contains (walk leaf group f n s).seen n ≡ true)
    unfolding walk
    walk-Grows zero n s h = absurd (omega arith)
    walk-Grows (suc f) n s h = elim (Bool-cases (contains s.seen n)) [
      | inl old ↦ rw (old, walk) (Grows-refl s, old)
      | inr new ↦
          rw (new, walk)
            (elim (Option-cases (leaf n)) [
              | inr (a, el) ↦ rw (el, walk) (Grows-leaf n s a el, contains-head n s.seen)
              | inl el ↦
                  rw (el, walk)
                    (elim (Option-cases (group n)) [
                      | inl eg ↦ rw (eg, walk) (Grows-unknown n s el eg, contains-head n s.seen)
                      | inr (ms, eg) ↦
                          rw (eg, walk)
                            (Grows-group n s (walk_all (walk leaf group f) ms (visited n s)) ms el
                              eg
                              (walk_all-Grows (walk leaf group f) names f (walk-Grows f) ms
                                (visited n s)
                                (omega (arith, unseen-cons names s.seen n (known n ms eg) new))))
                    ])
            ])
    ]
