-- ===== src/Validator/Groups/Acyclic.antt =====
-- validator.go, `groups`: when the check passes, no group contains itself.
use songbird_prototypes.Prelude.{
  ℕ, suc, ◌<◌, String, ◌≡◌, refl, sym, ap, subst, inl, inr, true, ◌||◌, List, [], ◌∷◌, map, arith,
  ◌==◌, eq_iff, eq_refl, Bool-cases, length, All, has_key, contains,
}
use mathlib.Core.WellFounded.{Acc}
use songbird_prototypes.Model.Types.{Object, GroupSpec}
use songbird_prototypes.Model.Objects.{name_of}
use songbird_prototypes.Model.Walk.Grows.{unseen-le-length}
use songbird_prototypes.Validator.Checks.{Env, NameSpace, ◌>>=◌, done, fold}
use songbird_prototypes.Validator.Checks.Passing.{
  Passes, Passes-return, Passes-bind, Passes-both, Passes-second, Passes-weaken,
}
use songbird_prototypes.Validator.Groups.{
  Graph, Colour, white, grey, black, Colours, colour_of, root, roots, group_refs, group_check,
  groups,
}
use songbird_prototypes.Validator.Groups.Settled.{
  finished, seen, Holds, IsSettled, black-finished, Grows, Grows-refl, Grows-trans,
}
use songbird_prototypes.Validator.Groups.Search.{dfs-Passes}

-- The groups that a group contains, directly or through others.
pub data Inside (graph : Graph) : String → String → Type 0 where
  member : {n m : String} → Holds graph n m → Inside graph n m
  deeper : {n m : String} (k : String) → Holds graph n k → Inside graph k m → Inside graph n m

module _ (graph : Graph) where
  last_step : {n m k : String} → Inside graph n m → Holds graph m k → Inside graph n k
  last_step (member h) l = deeper _ h (member l)
  last_step (deeper k h r) l = deeper k h (last_step r l)

  -- Membership in reverse.
  abbrev HeldBy : String → String → Type 0
  HeldBy m n = Holds graph n m

  finished-Acc :
      (c : Colours)
      → IsSettled graph c
      → (n : String) → contains (finished c) n ≡ true
      → Acc HeldBy n
  unfolding IsSettled finished
  finished-Acc [] s n h = cc
  finished-Acc ((x, white) ∷ c) s n h = absurd s
  finished-Acc ((x, grey) ∷ c) s n h = finished-Acc c s n h
  finished-Acc ((x, black) ∷ c) (held, s) n h = elim (Bool-cases (x == n)) [
    | inl e ↦ Acc.intro n (λ m k.
        finished-Acc c s m (held m (subst (λ y. Holds graph y m) (sym ((eq_iff x n).0 e)) k)))
    | inr e ↦ finished-Acc c s n (rw e at h)
  ]

  Acc-no_cycle : (n : String) → Acc HeldBy n → Inside graph n n → ⊥
  Acc-no_cycle n (Acc.intro _ below) (member h) = Acc-no_cycle n (below n h) (member h)
  Acc-no_cycle n (Acc.intro _ below) (deeper k h r) = Acc-no_cycle k (below k h) (last_step r h)

  inside-group : {n m : String} → Inside graph n m → has_key m graph ≡ true
  unfolding Holds
  inside-group (member h) = h.1
  inside-group (deeper k h r) = inside-group r

-- The graph of the groups; of two groups with one name it has the later one.
graph_of : List (Object GroupSpec) → Graph → Graph
graph_of [] graph = graph
graph_of (g ∷ gs) graph = graph_of gs ((name_of g, g.spec.members) ∷ graph)

unfoldable pub group_graph : List (Object GroupSpec) → Graph
unfolding graph_of
group_graph gs = graph_of gs []

abbrev names_of : List (Object GroupSpec) → List String
names_of gs = map name_of gs

key_cons :
    (n m : String) (ms : List String) (graph : Graph)
    → has_key m ((n, ms) ∷ graph) ≡ ((n == m) || has_key m graph)
key_cons n m ms graph = ground arith

key-graph_of :
    (gs : List (Object GroupSpec)) (graph : Graph) (m : String)
    → has_key m (graph_of gs graph) ≡ true
    → (contains (names_of gs) m || has_key m graph) ≡ true
unfolding graph_of
key-graph_of [] graph m h = h
key-graph_of (g ∷ gs) graph m h = ground (
  arith,
  key_cons (name_of g) m g.spec.members graph,
  key-graph_of gs ((name_of g, g.spec.members) ∷ graph) m h,
)

pub has_key-group_graph :
    (gs : List (Object GroupSpec)) (m : String)
    → has_key m (group_graph gs) ≡ true
    → contains (map name_of gs) m ≡ true
unfolding group_graph
has_key-group_graph gs m h = ground (arith, key-graph_of gs [] m h)

module _ (ns : NameSpace) (kinds : List String) where
  refs-Passes :
      (gs : List (Object GroupSpec)) (graph : Graph)
      → Passes (fold gs (group_refs ns kinds) graph) (λ r. r ≡ graph_of gs graph)
  unfolding fold group_refs graph_of
  refs-Passes [] graph = Passes-return (λ r. r ≡ graph) graph refl
  refs-Passes (g ∷ gs) graph =
      let entry : Graph = (name_of g, g.spec.members) ∷ graph in
      Passes-bind (λ r. r ≡ graph_of gs entry) (λ r. r ≡ entry) _ (fold gs (group_refs ns kinds))
        (Passes-second (λ r. r ≡ entry) _ _
          (Passes-second (λ r. r ≡ entry) _ _ (Passes-return (λ r. r ≡ entry) entry refl)))
        (λ r e.
          subst (λ x. Passes (fold gs (group_refs ns kinds) x) (λ r. r ≡ graph_of gs entry)) (sym e)
            (refs-Passes gs entry))

module _ (ns : NameSpace) (req : String) (graph : Graph) (all_names : List String)
    (known : (m : String) → has_key m graph ≡ true → contains all_names m ≡ true) where
  abbrev NoGrey : Colours → Type 0
  NoGrey c = (x : String) → colour_of x c ≡ grey → ⊥

  abbrev Finished : Colours → String → Colours → Type 0
  Finished c n c' = IsSettled graph c' × Grows c c' × (contains (finished c') n ≡ true)

  root-Passes :
      (f : ℕ) (n : String) (c : Colours) (col : Colour)
      → length all_names < f
      → contains all_names n ≡ true
      → IsSettled graph c
      → NoGrey c
      → colour_of n c ≡ col
      → Passes (root ns req graph f col n c) (Finished c n)
  unfolding root
  root-Passes f n c white enough k s clear e =
      dfs-Passes ns req graph all_names known f n (n ∷ []) c s e k
        (omega (arith, unseen-le-length all_names (seen c)))
  root-Passes f n c grey enough k s clear e = absurd (clear n e)
  root-Passes f n c black enough k s clear e =
      Passes-return (Finished c n) c (s, Grows-refl c, black-finished graph c n e)

  roots-Passes :
      (f : ℕ) (gs : List (Object GroupSpec)) (c : Colours)
      → length all_names < f
      → All (λ n. contains all_names n ≡ true) (names_of gs)
      → IsSettled graph c
      → NoGrey c
      → Passes (roots ns req graph f gs c) (λ c'.
        IsSettled graph c'
        × Grows c c'
        × ((n : String) → contains (names_of gs) n ≡ true → contains (finished c') n ≡ true))
  unfolding roots fold
  roots-Passes f [] c enough ks s clear = Passes-return _ c (s, Grows-refl c, λ n h. cc)
  roots-Passes f (g ∷ gs) c enough (k, ks) s clear =
      Passes-bind _ (Finished c (name_of g)) _ _
        (root-Passes f (name_of g) c (colour_of (name_of g) c) enough k s clear refl)
        (λ c₁ (s₁, g₁, f₁).
          Passes-weaken _
            (λ c₂ (s₂, g₂, f₂). (
              s₂,
              Grows-trans g₁ g₂,
              λ n h. elim (Bool-cases (name_of g == n)) [
                | inl e ↦
                    subst (λ y. contains (finished c₂) y ≡ true) ((eq_iff (name_of g) n).0 e)
                      (g₂.finished_kept (name_of g) f₁)
                | inr e ↦ f₂ n (rw e at h)
              ],
            ))
            (roots-Passes f gs c₁ enough ks s₁ (λ x h. clear x (g₁.grey_kept x h))))

All-contains :
    (xs ys : List String)
    → ((n : String) → contains xs n ≡ true → contains ys n ≡ true)
    → All (λ n. contains ys n ≡ true) xs
All-contains [] ys f = tt
All-contains (x ∷ xs) ys f =
    (f x (rw (eq_refl x)), All-contains xs ys (λ n h. f n (rw h (ground arith))))

length-names : (gs : List (Object GroupSpec)) → length (names_of gs) ≡ length gs
length-names [] = refl
length-names (g ∷ gs) = ap suc (length-names gs)

-- No group reaches itself by its members.
abbrev pub IsAcyclic : List (Object GroupSpec) → Type 0
IsAcyclic gs = (n : String) → Inside (group_graph gs) n n → ⊥

group_check-Passes :
    (ns : NameSpace) (kinds : List String) (req : String) (gs : List (Object GroupSpec))
    → Passes (group_check ns kinds req gs) (λ u. IsAcyclic gs)
unfolding group_check group_graph colour_of IsSettled
group_check-Passes ns kinds req gs =
    let graph = group_graph gs in
    let known : (m : String) → has_key m graph ≡ true → contains (names_of gs) m ≡ true =
      λ m h. ground (arith, key-graph_of gs [] m h) in
    Passes-bind (λ u. IsAcyclic gs) (λ r. r ≡ graph) _ _ (refs-Passes ns kinds gs [])
      (λ r e.
        subst
          (λ x. Passes (roots ns req x (suc (length gs)) gs [] >>= λ c. done) (λ u. IsAcyclic gs))
          (sym e)
          (Passes-bind (λ u. IsAcyclic gs) (λ c. IsAcyclic gs) _ _
            (Passes-weaken _
              (λ c (s, g, f) n cycle.
                Acc-no_cycle graph n
                  (finished-Acc graph c s n (f n (known n (inside-group graph cycle)))) cycle)
              (roots-Passes ns req graph (names_of gs) known (suc (length gs)) gs []
                (omega (arith, length-names gs))
                (All-contains (names_of gs) (names_of gs) (λ n h. h)) tt (λ x h. cc)))
            (λ c h. Passes-return (λ u. IsAcyclic gs) tt h)))

pub groups-Passes :
    (env : Env)
    → Passes (groups env) (λ u. IsAcyclic env.t.address_groups × IsAcyclic env.t.service_groups)
unfolding groups
groups-Passes env =
    Passes-both _ _ _ _ (group_check-Passes _ _ _ env.t.address_groups)
      (group_check-Passes _ _ _ env.t.service_groups)
