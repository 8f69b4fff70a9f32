-- ===== src/Validator/Groups/Search.antt =====
-- validator.go, `groups`: a search that meets no grey group finishes its group, and leaves the colours
-- settled. The fuel is enough when it is above the number of groups that are not seen yet.
use songbird_prototypes.Prelude.{
  ℕ, zero, suc, ◌<◌, String, ◌≡◌, refl, sym, ◌∙◌, subst, inl, inr, true, false, List, [], ◌∷◌, ◌++◌,
  arith, ◌==◌, eq_iff, eq_refl, Bool-cases, lookup, has_key, contains,
}
use mathlib.Core.Bool.{true≢false}
use songbird_prototypes.Model.Walk.Grows.{unseen, unseen_mono, unseen-cons}
use songbird_prototypes.Validator.Checks.{NameSpace, Check, return, ◌>>◌, at, given, fold}
use songbird_prototypes.Validator.Checks.Passing.{
  Passes, Passes-return, Passes-bind, Passes-if, Passes-second, Passes-weaken, Passes-err,
}
use songbird_prototypes.Validator.Groups.{
  Graph, Colour, white, grey, black, Colours, colour_of, members_in, report_cycle, by_colour,
  member, dfs,
}
use songbird_prototypes.Validator.Groups.Settled.{
  finished, seen, Holds, IsSettled, black-finished, white-seen, Grows, Grows-refl, Grows-trans,
  Grows-visit,
}

single_eq : (m x : String) → contains (m ∷ []) x ≡ true → m ≡ x
single_eq m x e = ground (arith, eq_iff m x)

module _ (ns : NameSpace) (req : String) (graph : Graph) where
  -- The state after a search from the group `n`, and after its members.
  abbrev Finishes : Colours → String → Colours → Type 0
  Finishes c n c' = IsSettled graph c' × Grows c c' × (contains (finished c') n ≡ true)

  abbrev FinishesAll : Colours → List String → Colours → Type 0
  FinishesAll c ms c' =
      IsSettled graph c'
      × Grows c c'
      × ((m : String)
          → contains ms m ≡ true
          → has_key m graph ≡ true
          → contains (finished c') m ≡ true)

  report-Passes :
      (n : String) (path : List String) (mem : String) (c : Colours) (Q : Colours → Type 0)
      → Passes (report_cycle ns req graph n path mem >> return c) Q
  unfolding report_cycle
  report-Passes n path mem c Q =
      Passes-bind Q (λ u. Q c) _ (λ u. return c)
        (Passes-second (λ u. Q c) (given (lookup n ns) at) _ (Passes-err (λ u. Q c) _ _ _ _))
        (λ u q. Passes-return Q c q)

  module _ (search : String → List String → Colours → Check Colours) (names : List String) (k : ℕ)
      (finishes : (m : String) (path : List String) (c : Colours)
        → IsSettled graph c
        → colour_of m c ≡ white
        → contains names m ≡ true
        → unseen names (seen c) < k
        → Passes (search m path c) (Finishes c m))
      (known : (m : String) → has_key m graph ≡ true → contains names m ≡ true) where
    colour-Passes :
        (n : String) (path : List String) (m : String) (c : Colours) (col : Colour)
        → colour_of m c ≡ col
        → IsSettled graph c
        → has_key m graph ≡ true
        → unseen names (seen c) < k
        → Passes (by_colour ns req graph search n path m c col) (Finishes c m)
    unfolding by_colour
    colour-Passes n path m c white e s h less = finishes m (path ++ m ∷ []) c s e (known m h) less
    colour-Passes n path m c grey e s h less = report-Passes n path m c (Finishes c m)
    colour-Passes n path m c black e s h less =
        Passes-return (Finishes c m) c (s, Grows-refl c, black-finished graph c m e)

    member-Passes :
        (n : String) (path : List String) (m : String) (c : Colours)
        → IsSettled graph c
        → unseen names (seen c) < k
        → Passes (member ns req graph search n path m c) (FinishesAll c (m ∷ []))
    unfolding member
    member-Passes n path m c s less =
        Passes-if (FinishesAll c (m ∷ [])) (has_key m graph)
          (by_colour ns req graph search n path m c (colour_of m c)) (return c)
          (λ h.
            Passes-weaken _
              (λ c' (s', g, f).
                (s', g, λ x e h'. subst (λ y. contains (finished c') y ≡ true) (single_eq m x e) f))
              (colour-Passes n path m c (colour_of m c) refl s h less))
          (λ h. Passes-return (FinishesAll c (m ∷ [])) c (
            s,
            Grows-refl c,
            λ x e h'.
                absurd
                  (true≢false (sym h' ∙ subst (λ y. has_key y graph ≡ false) (single_eq m x e) h)),
          ))

    members-Passes :
        (n : String) (path : List String) (ms : List String) (c : Colours)
        → IsSettled graph c
        → unseen names (seen c) < k
        → Passes (fold ms (member ns req graph search n path) c) (FinishesAll c ms)
    unfolding fold
    members-Passes n path [] c s less =
        Passes-return (FinishesAll c []) c (s, Grows-refl c, λ x e h. cc)
    members-Passes n path (m ∷ ms) c s less =
        Passes-bind (FinishesAll c (m ∷ ms)) (FinishesAll c (m ∷ [])) _ _
          (member-Passes n path m c s less)
          (λ c₁ (s₁, g₁, f₁).
            Passes-weaken _
              (λ c₂ (s₂, g₂, f₂). (
                s₂,
                Grows-trans g₁ g₂,
                λ x e h. elim (Bool-cases (m == x)) [
                  | inl q ↦ g₂.finished_kept x (f₁ x (rw q) h)
                  | inr q ↦ f₂ x (rw q at e) h
                ],
              ))
              (members-Passes n path ms c₁ s₁
                (omega (arith, unseen_mono names (seen c) (seen c₁) g₁.seen_kept))))

  pub dfs-Passes :
      (names : List String)
      → ((m : String) → has_key m graph ≡ true → contains names m ≡ true)
      → (f : ℕ) (n : String) (path : List String) (c : Colours) → IsSettled graph c
      → colour_of n c ≡ white
      → contains names n ≡ true
      → unseen names (seen c) < f
      → Passes (dfs ns req graph f n path c) (Finishes c n)
  unfolding dfs IsSettled finished seen Holds
  dfs-Passes names known zero n path c s e k less = absurd (omega arith)
  dfs-Passes names known (suc f) n path c s e k less =
      Passes-bind (Finishes c n) (FinishesAll ((n, grey) ∷ c) (members_in (lookup n graph))) _ _
        (members-Passes (dfs ns req graph f) names f (dfs-Passes names known f) known n path
          (members_in (lookup n graph)) ((n, grey) ∷ c) s
          (omega (arith, unseen-cons names (seen c) n k (white-seen graph c n s e))))
        (λ c₁ (s₁, g₁, f₁).
          Passes-return (Finishes c n) ((n, black) ∷ c₁)
            ((λ m h. f₁ m h.0 h.1, s₁), Grows-visit n c c₁ g₁, rw (eq_refl n)))
