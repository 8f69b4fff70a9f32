-- ===== src/Reconciler/Transaction/Order.antt =====
-- reconciler.go, `apply`: what a transaction did, from its steps.
use songbird_prototypes.Prelude.{
  ℕ, suc, ◌+◌, String, ◌≡◌, refl, sym, ap, ◌∙◌, subst, inl, inr, Bool, true, false, ◌&&◌, Option,
  none, some, List, [], ◌∷◌, ◌++◌, map, reverse, arith, ◌==◌, eq_iff, if◌then◌else◌, Bool-cases,
  length, any, all, All,
}
use mathlib.Core.Bool.{true≢false}
use mathlib.Core.List.{reverse-cons, append_assoc}
use songbird_prototypes.Reconciler.{ErrorInfo, Step, driver_names}
use songbird_prototypes.Reconciler.Transaction.{
  when, Stage, done, broken, rollback, apply_error, run, apply, stages, rollbacks, is_changed,
}

-- The drivers of the commit stages, in their order.
pub commits : List Stage → List String
commits [] = []
commits (s ∷ rest) =
    let later = commits rest in if s.op == "commit" then s.driver ∷ later else later

-- The stage with the number `n` fails.
pub fails_at : (ℕ → String → Bool) → ℕ → Stage → Bool
fails_at fails n s = fails n s.driver && s.op == "commit"

-- No stage fails, from the number `n` on.
pub Passes : (ℕ → String → Bool) → ℕ → List Stage → Type 0
Passes fails n [] = Unit
Passes fails n (s ∷ rest) = (fails_at fails n s ≡ false) × Passes fails (suc n) rest

-- A transaction whose stages `all` start at the number `n`, with the drivers `before` already
-- committed, the last one first: either every stage ran, or the first that fails is followed by the
-- rollback of all committed drivers in reverse order, and nothing else runs.
pub data Transaction (fails : ℕ → String → Bool) (n : ℕ) (before : List String) (all : List Stage)
    : List Step → Option ErrorInfo → Type 0 where
  complete :
      {steps : List Step} {error : Option ErrorInfo}
      → Passes fails n all
      → steps ≡ map done all
      → error ≡ none
      → Transaction fails n before all steps error
  undone :
      {steps : List Step} {error : Option ErrorInfo} (ran : List Stage) (s : Stage)
      (rest : List Stage)
      → all ≡ ran ++ s ∷ rest
      → Passes fails n ran
      → fails_at fails (n + length ran) s ≡ true
      → steps ≡ map done ran ++ broken s ∷ map rollback (reverse (commits ran) ++ before)
      → error ≡ some (apply_error s)
      → Transaction fails n before all steps error

push : Stage → List String → List String
push s before = if s.op == "commit" then s.driver ∷ before else before

reverse-commits :
    (s : Stage) (ran : List Stage) (before : List String)
    → reverse (commits (s ∷ ran)) ++ before ≡ reverse (commits ran) ++ push s before
unfolding commits push
reverse-commits s ran before = elim (Bool-cases (s.op == "commit")) [
  | inl e ↦ rw e (
      ap (λ l. l ++ before) (reverse-cons s.driver (commits ran))
      ∙ append_assoc (reverse (commits ran)) (s.driver ∷ []) before)
  | inr e ↦ rw (e) refl
]

run-broken :
    (fails : ℕ → String → Bool) (n : ℕ) (before : List String) (s : Stage) (rest : List Stage)
    → fails_at fails n s ≡ true
    → run fails n before (s ∷ rest) ≡ (broken s ∷ rollbacks before, some (apply_error s))
unfolding run fails_at
run-broken fails n before s rest e = rw e refl

run-done :
    (fails : ℕ → String → Bool) (n : ℕ) (before : List String) (s : Stage) (rest : List Stage)
    → fails_at fails n s ≡ false
    → run fails n before (s ∷ rest) ≡ (
      done s ∷ (run fails (suc n) (push s before) rest).0,
      (run fails (suc n) (push s before) rest).1,
    )
unfolding run fails_at push
run-done fails n before s rest e = rw e refl

-- One more stage in front that runs.
Transaction-done :
    (fails : ℕ → String → Bool) (n : ℕ) (before : List String) (s : Stage) (rest : List Stage)
    (steps : List Step) (error : Option ErrorInfo)
    → fails_at fails n s ≡ false
    → Transaction fails (suc n) (push s before) rest steps error
    → Transaction fails n before (s ∷ rest) (done s ∷ steps) error
unfolding Passes
Transaction-done fails n before s rest steps error e (complete p q r) =
    complete (e, p) (ap (λ l. done s ∷ l) q) r
Transaction-done fails n before s rest steps error e (undone ran t left split p f q r) =
    undone (s ∷ ran) t left (ap (λ l. s ∷ l) split) (e, p)
      (subst (λ k. fails_at fails k t ≡ true) (omega arith) f)
      (ap (λ l. done s ∷ l) q
        ∙ ap (λ l. done s ∷ map done ran ++ broken t ∷ map rollback l)
            (sym (reverse-commits s ran before)))
      r

run-Transaction :
    (fails : ℕ → String → Bool) (n : ℕ) (before : List String) (all : List Stage)
    → Transaction fails n before all (run fails n before all).0 (run fails n before all).1
unfolding run Passes fails_at commits rollbacks
run-Transaction fails n before [] = complete tt refl refl
run-Transaction fails n before (s ∷ rest) =
    elim (Bool-cases (fails n s.driver && s.op == "commit")) [
      | inl e ↦
          subst
            (λ (p : List Step × Option ErrorInfo). Transaction fails n before (s ∷ rest) p.0 p.1)
            (sym (run-broken fails n before s rest e))
            (undone [] s rest refl tt (ap (λ k. fails_at fails k s) (omega arith) ∙ e) refl refl)
      | inr e ↦
          subst
            (λ (p : List Step × Option ErrorInfo). Transaction fails n before (s ∷ rest) p.0 p.1)
            (sym (run-done fails n before s rest e))
            (Transaction-done fails n before s rest (run fails (suc n) (push s before) rest).0
              (run fails (suc n) (push s before) rest).1 e
              (run-Transaction fails (suc n) (push s before) rest))
    ]

-- Whatever the fault flags are while the stages run: a transaction runs its stages in the order of
-- `stages`, all of them when no commit stage meets the flag of its driver, without an error. Else it
-- runs those before the first such stage, reports that stage as failed, rolls back every driver that
-- a stage committed, once for each commit and in reverse order, and names the failed driver.
pub apply-Transaction :
    (fails : ℕ → String → Bool) (changed : List String)
    → Transaction fails 0 [] (stages changed) (apply fails changed).0 (apply fails changed).1
unfolding apply
apply-Transaction fails changed = run-Transaction fails 0 [] (stages changed)

-- Whether a stage commits the driver.
pub is_committed : String → List Stage → Bool
is_committed d all = any (λ e. e == d) (commits all)

-- A transaction commits exactly the drivers whose section changed.
pub commits-changed :
    (changed : List String)
    → All (λ d. is_committed d (stages changed) ≡ is_changed changed d) driver_names
unfolding stages commits is_committed when
commits-changed changed = (ground arith, (ground arith, (ground arith, (ground arith, tt))))

pub apply-empty : (fails : ℕ → String → Bool) → apply fails [] ≡ ([], none)
unfolding apply run stages when is_changed
apply-empty fails = refl

eq_to_path : (s t : String) → (s == t) ≡ true → s ≡ t
eq_to_path s t h = ground (arith, eq_iff s t)

Passes-committed :
    (fails : ℕ → String → Bool) (d : String) (n : ℕ) (all : List Stage)
    → ((k : ℕ) → fails k d ≡ true)
    → Passes fails n all
    → is_committed d all ≡ false
unfolding Passes fails_at is_committed commits
Passes-committed fails d n [] f h = refl
Passes-committed fails d n (s ∷ rest) f h =
    let later = Passes-committed fails d (suc n) rest f h.1 in
    elim (Bool-cases (s.op == "commit")) [
      | inl e ↦ elim (Bool-cases (s.driver == d)) [
        | inl same ↦ ground (arith, h.0, e, f n, ap (fails n) (eq_to_path s.driver d same))
        | inr other ↦ rw e (rw other later)
      ]
      | inr e ↦ rw e later
    ]

-- A flag that is set for a committed driver, at all stages, ends the transaction with an error.
pub apply-faulted :
    (fails : ℕ → String → Bool) (changed : List String) (d : String)
    → ((k : ℕ) → fails k d ≡ true)
    → is_committed d (stages changed) ≡ true
    → (e : ErrorInfo) × ((apply fails changed).1 ≡ some e)
apply-faulted fails changed d f h = elim (apply-Transaction fails changed) [
  | complete p _ _ ↦ absurd (true≢false (sym h ∙ Passes-committed fails d 0 (stages changed) f p))
  | undone _ s _ _ _ _ _ e ↦ (apply_error s, e)
]
