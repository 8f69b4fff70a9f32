-- ===== src/Validator/Groups/Fuel.antt =====
-- validator.go, `groups`: the search for cycles ends. The recursion of `dfs` is on fuel, and once there is
-- more of it than groups, more changes nothing, whether cycles are found or not.
use songbird_prototypes.Prelude.{
  ℕ, zero, suc, ◌<◌, String, ◌≡◌, refl, ap, ◌∙◌, inl, inr, true, false, List, [], ◌∷◌, ◌++◌, map,
  arith, ◌==◌, eq_refl, Bool-cases, length, All, length-map, lookup, has_key, contains,
}
use songbird_prototypes.Model.Types.{Object, GroupSpec}
use songbird_prototypes.Model.Objects.{name_of}
use songbird_prototypes.Model.Walk.Grows.{unseen, unseen_mono, unseen-cons, unseen-le-length}
use songbird_prototypes.Validator.Checks.{NameSpace, Place, Outcome, Check, return, ◌>>=◌, fold}
use songbird_prototypes.Validator.Groups.{
  Graph, Colour, white, grey, black, Colours, colour_of, members_in, by_colour, member, dfs, root,
  roots,
}
use songbird_prototypes.Validator.Groups.Settled.{seen}
use songbird_prototypes.Validator.Groups.Acyclic.{group_graph, has_key-group_graph}

-- Every entry is of a group that has been visited.
IsVisited : Colours → Type 0
IsVisited [] = Unit {0}
IsVisited ((n, white) ∷ c) = ⊥
IsVisited ((n, grey) ∷ c) = IsVisited c
IsVisited ((n, black) ∷ c) = IsVisited c

white-unseen :
    (c : Colours) (n : String) → IsVisited c → colour_of n c ≡ white → contains (seen c) n ≡ false
unfolding colour_of seen IsVisited
white-unseen [] n s h = refl
white-unseen ((x, white) ∷ c) n s h = absurd s
white-unseen ((x, grey) ∷ c) n s h = elim (Bool-cases (x == n)) [
  | inl e ↦ absurd (ground (arith, e, h))
  | inr e ↦ rw e (white-unseen c n s (rw e at h))
]
white-unseen ((x, black) ∷ c) n s h = elim (Bool-cases (x == n)) [
  | inl e ↦ absurd (ground (arith, e, h))
  | inr e ↦ rw e (white-unseen c n s (rw e at h))
]

-- A run goes on with what has been seen.
record Later (c c' : Colours) : Type 0 where
  pub visited : IsVisited c → IsVisited c'
  pub kept : (x : String) → contains (seen c) x ≡ true → contains (seen c') x ≡ true

Later-refl : (c : Colours) → Later c c
Later-refl c = record { visited = λ h. h; kept = λ x h. h }

Later-trans : {a b c : Colours} → Later a b → Later b c → Later a c
Later-trans g k = record {
  visited = λ h. k.visited (g.visited h);
  kept = λ x h. k.kept x (g.kept x h);
}

Later-visit : (n : String) (c c' : Colours) → Later ((n, grey) ∷ c) c' → Later c ((n, black) ∷ c')
unfolding seen IsVisited
Later-visit n c c' g = record { visited = λ h. g.visited h; kept = λ x h. ground (arith, g.kept x) }

abbrev Search : Type 0
Search = String → List String → Colours → Check Colours

module _ (ns : NameSpace) (req : String) (graph : Graph) where
  module _ (search : Search)
      (later : (m : String) (path : List String) (c : Colours) (p : Place)
        → Later c (search m path c p).result) where
    colour-Later :
        (n : String) (path : List String) (m : String) (c : Colours) (col : Colour) (p : Place)
        → Later c (by_colour ns req graph search n path m c col p).result
    unfolding by_colour ◌>>=◌ return
    colour-Later n path m c white p = later m (path ++ m ∷ []) c p
    colour-Later n path m c grey p = Later-refl c
    colour-Later n path m c black p = Later-refl c

    member-Later :
        (n : String) (path : List String) (m : String) (c : Colours) (p : Place)
        → Later c (member ns req graph search n path m c p).result
    unfolding member return
    member-Later n path m c p = elim (Bool-cases (has_key m graph)) [
      | inl e ↦ rw e (colour-Later n path m c (colour_of m c) p)
      | inr e ↦ rw e (Later-refl c)
    ]

    members-Later :
        (n : String) (path : List String) (ms : List String) (c : Colours) (p : Place)
        → Later c (fold ms (member ns req graph search n path) c p).result
    unfolding fold ◌>>=◌ return
    members-Later n path [] c p = Later-refl c
    members-Later n path (m ∷ ms) c p =
        let first = member ns req graph search n path m c p in
        Later-trans (member-Later n path m c p) (members-Later n path ms first.result first.place)

  dfs-Later :
      (f : ℕ) (n : String) (path : List String) (c : Colours) (p : Place)
      → Later c (dfs ns req graph f n path c p).result
  unfolding dfs ◌>>=◌ return
  dfs-Later zero n path c p = Later-refl c
  dfs-Later (suc f) n path c p = Later-visit n c _ (
      members-Later (dfs ns req graph f) (dfs-Later f) n path (members_in (lookup n graph))
        ((n, grey) ∷ c) p)

-- The second check starts where the first one ends.
bind-eq :
    {A B : Type 0} (m m' : Check A) (f f' : A → Check B) (p : Place)
    → m p ≡ m' p
    → f (m p).result (m p).place ≡ f' (m p).result (m p).place
    → (m >>= f) p ≡ (m' >>= f') p
unfolding ◌>>=◌
bind-eq m m' f f' p e k =
    ap
      (λ (second : Outcome _). record {
        result = second.result;
        found = (m p).found ++ second.found;
        place = second.place;
      })
      k
    ∙ ap
        (λ (first : Outcome _).
          let second = f' first.result first.place in
          record {
            result = second.result;
            found = first.found ++ second.found;
            place = second.place;
          })
        e

module _ (ns : NameSpace) (req : String) (graph : Graph) (names : List String)
    (known : (m : String) → has_key m graph ≡ true → contains names m ≡ true) where
  module _ (k : ℕ) (s s' : Search)
      (later : (m : String) (path : List String) (c : Colours) (p : Place)
        → Later c (s m path c p).result)
      (agree : (m : String) (path : List String) (c : Colours) (p : Place)
        → IsVisited c
        → colour_of m c ≡ white
        → contains names m ≡ true
        → unseen names (seen c) < k
        → s m path c p ≡ s' m path c p) where
    colour-agree :
        (n : String) (path : List String) (m : String) (c : Colours) (col : Colour) (p : Place)
        → colour_of m c ≡ col
        → IsVisited c
        → has_key m graph ≡ true
        → unseen names (seen c) < k
        → by_colour ns req graph s n path m c col p ≡ by_colour ns req graph s' n path m c col p
    unfolding by_colour
    colour-agree n path m c white p e v h less = agree m (path ++ m ∷ []) c p v e (known m h) less
    colour-agree n path m c grey p e v h less = refl
    colour-agree n path m c black p e v h less = refl

    member-agree :
        (n : String) (path : List String) (m : String) (c : Colours) (p : Place)
        → IsVisited c
        → unseen names (seen c) < k
        → member ns req graph s n path m c p ≡ member ns req graph s' n path m c p
    unfolding member
    member-agree n path m c p v less = elim (Bool-cases (has_key m graph)) [
      | inl e ↦ rw e (colour-agree n path m c (colour_of m c) p refl v e less)
      | inr e ↦ rw e refl
    ]

    members-agree :
        (n : String) (path : List String) (ms : List String) (c : Colours) (p : Place)
        → IsVisited c
        → unseen names (seen c) < k
        → fold ms (member ns req graph s n path) c p ≡ fold ms (member ns req graph s' n path) c p
    unfolding fold
    members-agree n path [] c p v less = refl
    members-agree n path (m ∷ ms) c p v less =
        let first = member ns req graph s n path m c p in
        let on = member-Later ns req graph s later n path m c p in
        bind-eq (member ns req graph s n path m c) (member ns req graph s' n path m c)
          (fold ms (member ns req graph s n path)) (fold ms (member ns req graph s' n path)) p
          (member-agree n path m c p v less)
          (members-agree n path ms first.result first.place (on.visited v)
            (omega (arith, unseen_mono names (seen c) (seen first.result) on.kept)))

  -- Two searches that both have more fuel than there are names to see.
  dfs-agree :
      (f f' : ℕ) (n : String) (path : List String) (c : Colours) (p : Place)
      → IsVisited c
      → colour_of n c ≡ white
      → contains names n ≡ true
      → unseen names (seen c) < f
      → unseen names (seen c) < f'
      → dfs ns req graph f n path c p ≡ dfs ns req graph f' n path c p
  unfolding dfs seen IsVisited
  dfs-agree zero f' n path c p v e h less less' = absurd (omega arith)
  dfs-agree (suc f) zero n path c p v e h less less' = absurd (omega arith)
  dfs-agree (suc f) (suc f') n path c p v e h less less' =
      let start : Colours = (n, grey) ∷ c in
      let ms = members_in (lookup n graph) in
      let fresh : unseen names (seen start) < unseen names (seen c) =
        unseen-cons names (seen c) n h (white-unseen c n v e) in
      bind-eq (fold ms (member ns req graph (dfs ns req graph f) n path) start)
        (fold ms (member ns req graph (dfs ns req graph f') n path) start)
        (λ c'. return ((n, black) ∷ c')) (λ c'. return ((n, black) ∷ c')) p
        (members-agree (unseen names (seen c)) (dfs ns req graph f) (dfs ns req graph f')
          (dfs-Later ns req graph f)
          (λ m path' c' q v' e' h' fewer.
            dfs-agree f f' m path' c' q v' e' h' (omega (arith, fewer, less))
              (omega (arith, fewer, less')))
          n path ms start p v fresh)
        refl

  root-agree :
      (f f' : ℕ) (n : String) (c : Colours) (col : Colour) (p : Place)
      → colour_of n c ≡ col
      → IsVisited c
      → contains names n ≡ true
      → length names < f
      → length names < f'
      → root ns req graph f col n c p ≡ root ns req graph f' col n c p
  unfolding root
  root-agree f f' n c white p e v h less less' =
      dfs-agree f f' n (n ∷ []) c p v e h (omega (arith, unseen-le-length names (seen c)))
        (omega (arith, unseen-le-length names (seen c)))
  root-agree f f' n c grey p e v h less less' = refl
  root-agree f f' n c black p e v h less less' = refl

  root-Later :
      (f : ℕ) (n : String) (c : Colours) (col : Colour) (p : Place)
      → Later c (root ns req graph f col n c p).result
  unfolding root return
  root-Later f n c white p = dfs-Later ns req graph f n (n ∷ []) c p
  root-Later f n c grey p = Later-refl c
  root-Later f n c black p = Later-refl c

  roots-agree :
      (f f' : ℕ) (gs : List (Object GroupSpec)) (c : Colours) (p : Place)
      → IsVisited c
      → All (λ g. contains names (name_of g) ≡ true) gs
      → length names < f
      → length names < f'
      → roots ns req graph f gs c p ≡ roots ns req graph f' gs c p
  unfolding roots fold
  roots-agree f f' [] c p v h less less' = refl
  roots-agree f f' (g ∷ gs) c p v (h, hs) less less' =
      let n = name_of g in
      let col = colour_of n c in
      let first = root ns req graph f col n c p in
      bind-eq (root ns req graph f col n c) (root ns req graph f' col n c) (roots ns req graph f gs)
        (roots ns req graph f' gs) p (root-agree f f' n c col p refl v h less less')
        (roots-agree f f' gs first.result first.place ((root-Later f n c col p).visited v) hs less
          less')

All-names :
    (gs : List (Object GroupSpec)) (names : List String)
    → ((n : String) → contains (map name_of gs) n ≡ true → contains names n ≡ true)
    → All (λ g. contains names (name_of g) ≡ true) gs
All-names [] names f = tt
All-names (g ∷ gs) names f = (
  f (name_of g) (rw (eq_refl (name_of g))),
  All-names gs names (λ n h. f n (rw h (ground arith))),
)

-- The search for cycles through all groups has the same findings and colours with any fuel above the
-- number of groups as with the fuel that the Validator gives it, whether it finds a cycle or not.
pub roots_fuel :
    (ns : NameSpace) (req : String) (gs : List (Object GroupSpec)) (f : ℕ) (p : Place)
    → length gs < f
    → roots ns req (group_graph gs) f gs [] p
      ≡ roots ns req (group_graph gs) (suc (length gs)) gs [] p
unfolding IsVisited
roots_fuel ns req gs f p enough =
    let names = map name_of gs in
    roots-agree ns req (group_graph gs) names (has_key-group_graph gs) f (suc (length gs)) gs [] p
      tt (All-names gs names (λ n h. h)) (omega (arith, length-map name_of gs))
      (omega (arith, length-map name_of gs))
