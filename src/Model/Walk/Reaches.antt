-- ===== src/Model/Walk/Reaches.antt =====
-- tree.go, `walk`: the output is exactly what the groups reach.
use songbird_prototypes.Prelude.{
  ℕ, zero, suc, ◌<◌, String, ◌≡◌, sym, ap, ◌∙◌, ◌⊎◌, inl, inr, true, Option, none, some, List, [],
  ◌∷◌, arith, eq_refl, Bool-cases, Option-cases, length, contains,
}
use mathlib.Core.List.{Memᴰ}
use mathlib.Core.List.Memᴰ
use songbird_prototypes.Model.Walk.{State, walk, walk_all}
use songbird_prototypes.Model.Walk.Grows.{Done, walk-Grows, unseen-le-length}

-- What a name stands for: its own object, or what the members of its group stand for. A name that is
-- an object is never read as a group.
pub data Reaches {ℓ} {A : Type ℓ} (leaf : String → Option A) (group : String → Option (List String))
    (a : A) : String → Type ℓ where
  object : {n : String} → leaf n ≡ some a → Reaches leaf group a n
  member :
      {n : String} (ms : List String) (m : String)
      → leaf n ≡ none
      → group n ≡ some ms
      → contains ms m ≡ true
      → Reaches leaf group a m
      → Reaches leaf group a n

module _ {ℓ} {A : Type ℓ} (leaf : String → Option A) (group : String → Option (List String)) where
  abbrev pub closure : ℕ → String → List A
  closure f ref = (walk leaf group f ref (record { seen = []; out = [] })).out

  -- When every seen name is done with, all that a seen name reaches is in the output.
  Reaches-out :
      (s : State A)
      → ((x : String) → contains s.seen x ≡ true → Done leaf group s x)
      → {a : A} {n : String} → Reaches leaf group a n
      → contains s.seen n ≡ true
      → Memᴰ a s.out
  Reaches-out s done {a} {n} (object e) seen = (done n seen).leaf_out a e
  Reaches-out s done {a} {n} (member ms m el eg c r) seen =
      Reaches-out s done r ((done n seen).members_seen el ms eg m c)

  walk_all_sound :
      (w : String → State A → State A) (a : A)
      → ((m : String) (s : State A) → Memᴰ a (w m s).out → Memᴰ a s.out ⊎ Reaches leaf group a m)
      → (ms : List String) (s : State A) → Memᴰ a (walk_all w ms s).out
      → Memᴰ a s.out ⊎ ((m : String) × (contains ms m ≡ true) × Reaches leaf group a m)
  unfolding walk_all
  walk_all_sound w a sound [] s h = inl h
  walk_all_sound w a sound (m ∷ ms) s h = elim (walk_all_sound w a sound ms (w m s) h) [
    | inr (m', c, r) ↦ inr (m', ground arith, r)
    | inl h' ↦ elim (sound m s h') [ inl old ↦ inl old | inr r ↦ inr (m, rw (eq_refl m), r) ]
  ]

  -- A visit adds only what its name reaches, whatever the fuel.
  walk_sound :
      (f : ℕ) (n : String) (s : State A) (a : A)
      → Memᴰ a (walk leaf group f n s).out
      → Memᴰ a s.out ⊎ Reaches leaf group a n
  unfolding walk
  walk_sound zero n s a h = inl h
  walk_sound (suc f) n s a h = elim (Bool-cases (contains s.seen n)) [
    | inl old ↦ inl (rw (old, walk) at h)
    | inr new ↦ elim (Option-cases (leaf n)) [
      | inr (b, el) ↦ elim (Memᴰ.append_cases s.out (rw (new, el, walk) at h)) [
        | inl old ↦ inl old
        | inr last ↦ inr (object (el ∙ ap some (sym (Memᴰ.eq_of_singleton last))))
      ]
      | inl el ↦ elim (Option-cases (group n)) [
        | inl eg ↦ inl (rw (new, el, eg, walk) at h)
        | inr (ms, eg) ↦
            elim (walk_all_sound (walk leaf group f) a (λ m t. walk_sound f m t a) ms
              (record s { seen = n ∷ s.seen }) (rw (new, el, eg, walk) at h)) [
                | inl old ↦ inl old
                | inr (m, c, r) ↦ inr (member ms m el eg c r)
              ]
      ]
    ]
  ]

  module _ (names : List String)
      (known : (n : String) (ms : List String) → group n ≡ some ms → contains names n ≡ true) where
    -- The closure with more fuel than there are groups holds exactly what the name reaches.
    pub closure_iff :
        (f : ℕ) (ref : String) (a : A)
        → length names < f
        → (Memᴰ a (closure f ref) → Reaches leaf group a ref)
          × (Reaches leaf group a ref → Memᴰ a (closure f ref))
    closure_iff f ref a enough = (
      λ h. elim (walk_sound f ref start a h) [
        | inl none_yet ↦ absurd (Memᴰ.not-nil none_yet)
        | inr r ↦ r
      ],
      λ r.
          let (g, seen) =
            walk-Grows leaf group names known f ref start
              (omega (arith, unseen-le-length names [])) in
          Reaches-out (walk leaf group f ref start)
            (λ x h. elim (g.new_done x h) [ inl old ↦ cc | inr done ↦ done ]) r seen,
    )
      where
        start : State A
        start = record { seen = []; out = [] }
