-- ===== src/Events/Routes/Choice.antt =====
-- classify.go, `Route`: the choice of the first of the best candidates.
use songbird_prototypes.Prelude.{
  ℕ, String, ◌≡◌, refl, sym, ap, ◌∙◌, subst, ◌⊎◌, inl, inr, Bool, true, false, ◌&&◌, ◌||◌, Option,
  none, some, List, [], ◌∷◌, ◌++◌, arith, ltb, eqb, if◌then◌else◌, Bool-cases, All,
}
use songbird_prototypes.Model.Types.{StaticRouteSpec, preference}
use songbird_prototypes.Netip.{Addr, Prefix, Texts}
use songbird_prototypes.Events.Routes.{Best, no_route, preferred, consider, consider_route}

-- An Interface with a prefix that contains the destination; a connected one has the distance 0.
pub record Candidate : Type 0 where
  pub interface : String
  pub bits : ℕ
  pub distance : ℕ
  pub priority : ℕ

-- A longer prefix, or one as long with a smaller distance, or then a smaller priority.
abbrev pub better : Candidate → Candidate → Bool
better c b =
    ltb b.bits c.bits
    || (eqb c.bits b.bits
        && (ltb c.distance b.distance || (eqb c.distance b.distance && ltb c.priority b.priority)))

-- The first of the best ones.
unfoldable pub IsBest : Candidate → List Candidate → Type 0
IsBest c cs =
    (front : List Candidate) × (back : List Candidate) × (cs ≡ front ++ c ∷ back)
    × All (λ x. better x c ≡ false) cs
    × All (λ x. better c x ≡ true) front

pub pick : Candidate → Candidate → Candidate
pick b c = if better c b then c else b

pick-up : (b c : Candidate) → better c b ≡ true → pick b c ≡ c
unfolding pick
pick-up b c h = ap (λ t. if t then c else b) h

pick-stay : (b c : Candidate) → better c b ≡ false → pick b c ≡ b
unfolding pick
pick-stay b c h = ap (λ t. if t then c else b) h

unfoldable pub pick_all : List Candidate → Candidate → Candidate
pick_all [] b = b
pick_all (c ∷ cs) b = pick_all cs (pick b c)

better_trans : (x y z : Candidate) → better x y ≡ true → better y z ≡ true → better x z ≡ true
better_trans x y z p q = ground arith

pub better_asym : (x y : Candidate) → better x y ≡ true → better y x ≡ false
better_asym x y p = ground arith

pub better_irrefl : (x : Candidate) → better x x ≡ false
better_irrefl x = ground arith

-- What is not better than `b` is below everything better than `b`.
better_over : (x b c : Candidate) → better x b ≡ false → better c b ≡ true → better c x ≡ true
better_over x b c p q = ground arith

-- What the choice among `cs` against `b` gives: `b`, or a best candidate that is better.
unfoldable pub Chosen : List Candidate → Candidate → Candidate → Type 0
Chosen cs b w = ((w ≡ b) × All (λ x. better x b ≡ false) cs) ⊎ (IsBest w cs × (better w b ≡ true))

Chosen-up :
    (cs : List Candidate) (x b w : Candidate)
    → better x b ≡ true
    → Chosen cs x w
    → Chosen (x ∷ cs) b w
unfolding Chosen IsBest
Chosen-up cs x b w e (inl (same, low)) = inr (
  subst (λ c. IsBest c (x ∷ cs)) (sym same) ([], cs, refl, (better_irrefl x, low), tt),
  subst (λ c. better c b ≡ true) (sym same) e,
)
Chosen-up cs x b w e (inr ((front, back, split, top, earlier), over)) = inr (
  (x ∷ front, back, ap (λ l. x ∷ l) split, (better_asym w x over, top), (over, earlier)),
  better_trans w x b over e,
)

Chosen-stay :
    (cs : List Candidate) (x b w : Candidate)
    → better x b ≡ false
    → Chosen cs b w
    → Chosen (x ∷ cs) b w
unfolding Chosen IsBest
Chosen-stay cs x b w e (inl (same, low)) = inl (same, (e, low))
Chosen-stay cs x b w e (inr ((front, back, split, top, earlier), over)) =
    let above = better_over x b w e over in
    inr (
      (x ∷ front, back, ap (λ l. x ∷ l) split, (better_asym w x above, top), (above, earlier)),
      over,
    )

pub pick_all-Chosen : (cs : List Candidate) (b : Candidate) → Chosen cs b (pick_all cs b)
unfolding pick_all Chosen pick
pick_all-Chosen [] b = inl (refl, tt)
pick_all-Chosen (x ∷ xs) b = elim (Bool-cases (better x b)) [
  | inl e ↦ Chosen-up xs x b (pick_all xs (pick b x)) e (
      subst (λ c. Chosen xs x (pick_all xs c)) (sym (ap (λ t. if t then x else b) e))
        (pick_all-Chosen xs x))
  | inr e ↦ Chosen-stay xs x b (pick_all xs (pick b x)) e (
      subst (λ c. Chosen xs b (pick_all xs c)) (sym (ap (λ t. if t then x else b) e))
        (pick_all-Chosen xs b))
]

unfoldable pub pick_from : List Candidate → Option Candidate → Option Candidate
pick_from [] o = o
pick_from (c ∷ cs) none = pick_from cs (some c)
pick_from (c ∷ cs) (some b) = pick_from cs (some (pick b c))

pub pick_from-append :
    (xs ys : List Candidate) (o : Option Candidate)
    → pick_from (xs ++ ys) o ≡ pick_from ys (pick_from xs o)
unfolding pick_from
pick_from-append [] ys o = refl
pick_from-append (x ∷ xs) ys none = pick_from-append xs ys (some x)
pick_from-append (x ∷ xs) ys (some b) = pick_from-append xs ys (some (pick b x))

pub pick_from-some :
    (cs : List Candidate) (b : Candidate) → pick_from cs (some b) ≡ some (pick_all cs b)
unfolding pick_from pick_all
pick_from-some [] b = refl
pick_from-some (c ∷ cs) b = pick_from-some cs (pick b c)

-- The loop's variables for a choice.
unfoldable pub as_best : Option Candidate → Best
as_best none = no_route
as_best (some c) = record {
  best = c.interface;
  bits = some c.bits;
  best_pref = (c.distance, c.priority);
}

-- A choice among connected prefixes only.
unfoldable pub IsNear : Option Candidate → Type 0
IsNear none = Unit
IsNear (some c) = (c.distance ≡ 0) × (c.priority ≡ 0)

unfoldable pub near : String → Prefix → Candidate
near name p = record { interface = name; bits = p.bits; distance = 0; priority = 0 }

unfoldable pub far : StaticRouteSpec → Prefix → Candidate
far r p = record {
  interface = r.interface;
  bits = p.bits;
  distance = (preference r).0;
  priority = (preference r).1;
}

module _ (netip : Texts) (dst : Addr) where
  consider-longer :
      (name : String) (p : Prefix) (c : Candidate)
      → IsNear (some c)
      → ltb c.bits p.bits ≡ true
      → consider netip dst name (some p) (as_best (some c)) ≡ as_best (some (near name p))
  unfolding consider as_best near IsNear
  consider-longer name p c h e =
      rw e (λ i. record { best = name; bits = some p.bits; best_pref = (h.0 i, h.1 i) })

  consider-shorter :
      (name : String) (p : Prefix) (c : Candidate)
      → ltb c.bits p.bits ≡ false
      → consider netip dst name (some p) (as_best (some c)) ≡ as_best (some c)
  unfolding consider as_best
  consider-shorter name p c e = rw e refl

  consider_route-longer :
      (r : StaticRouteSpec) (p : Prefix) (c : Candidate)
      → ltb c.bits p.bits ≡ true
      → consider_route netip dst r (some p) (as_best (some c)) ≡ as_best (some (far r p))
  unfolding consider_route as_best far
  consider_route-longer r p c e = rw e refl

  consider_route-preferred :
      (r : StaticRouteSpec) (p : Prefix) (c : Candidate)
      → ltb c.bits p.bits ≡ false
      → (eqb p.bits c.bits && preferred (preference r) (c.distance, c.priority)) ≡ true
      → consider_route netip dst r (some p) (as_best (some c)) ≡ as_best (some (far r p))
  unfolding consider_route as_best far
  consider_route-preferred r p c e f =
      let same : c.bits ≡ p.bits = ground (arith, f) in
      rw e
        (rw f (λ i. record { best = r.interface; bits = some (same i); best_pref = preference r }))

  consider_route-worse :
      (r : StaticRouteSpec) (p : Prefix) (c : Candidate)
      → ltb c.bits p.bits ≡ false
      → (eqb p.bits c.bits && preferred (preference r) (c.distance, c.priority)) ≡ false
      → consider_route netip dst r (some p) (as_best (some c)) ≡ as_best (some c)
  unfolding consider_route as_best
  consider_route-worse r p c e f = rw e (rw f refl)

  pub consider-near :
      (name : String) (p : Prefix) (o : Option Candidate)
      → IsNear o
      → (consider netip dst name (some p) (as_best o) ≡ as_best (pick_from (near name p ∷ []) o))
        × IsNear (pick_from (near name p ∷ []) o)
  unfolding consider as_best pick_from near IsNear pick
  consider-near name p none h = (refl, (refl, refl))
  consider-near name p (some c) h = elim (Bool-cases (ltb c.bits p.bits)) [
    | inl e ↦
        let q = pick-up c (near name p) (ground (arith, e)) in
        (
          consider-longer name p c h e ∙ ap (λ w. as_best (some w)) (sym q),
          subst (λ w. IsNear (some w)) (sym q) (refl, refl),
        )
    | inr e ↦
        let q = pick-stay c (near name p) (ground (arith, e, h.0, h.1)) in
        (
          consider-shorter name p c e ∙ ap (λ w. as_best (some w)) (sym q),
          subst (λ w. IsNear (some w)) (sym q) h,
        )
  ]

  pub consider_route-far :
      (r : StaticRouteSpec) (p : Prefix) (o : Option Candidate)
      → consider_route netip dst r (some p) (as_best o) ≡ as_best (pick_from (far r p ∷ []) o)
  unfolding consider_route as_best pick_from far pick
  consider_route-far r p none = refl
  consider_route-far r p (some c) =
      let x = far r p in
      elim (Bool-cases (ltb c.bits p.bits)) [
        | inl e ↦
            consider_route-longer r p c e
            ∙ ap (λ w. as_best (some w)) (sym (pick-up c x (ground (arith, e))))
        | inr e ↦
            elim (Bool-cases
              (eqb p.bits c.bits && preferred (preference r) (c.distance, c.priority))) [
                | inl f ↦
                    consider_route-preferred r p c e f
                    ∙ ap (λ w. as_best (some w)) (sym (pick-up c x (ground (arith, e, f))))
                | inr f ↦
                    consider_route-worse r p c e f
                    ∙ ap (λ w. as_best (some w)) (sym (pick-stay c x (ground (arith, e, f))))
              ]
      ]
