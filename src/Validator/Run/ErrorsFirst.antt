-- ===== src/Validator/Run/ErrorsFirst.antt =====
-- validator.go, `ValidateWith`: the sorted findings are the errors and then the rest, each in the order
-- of the checks.
use songbird_prototypes.Prelude.{
  ℕ, String, ◌≡◌, refl, sym, ap, ◌∙◌, inl, inr, Bool, true, false, Option, none, some, List, [],
  ◌∷◌, ◌++◌, map, arith, ◌==◌, eq_iff, if◌then◌else◌, Bool-cases, if_both,
}
use mathlib.Core.List.{append-nil}
use songbird_prototypes.Model.Tree.{Tree, Doc}
use songbird_prototypes.Netip.{Texts}
use songbird_prototypes.Predefined.{Shipped}
use songbird_prototypes.Validator.Errors.{Error, errors}
use songbird_prototypes.Validator.Checks.{Located}
use songbird_prototypes.Validator.Checks.Passing.{Passes, errors-append}
use songbird_prototypes.Validator.Run.{
  Issue, errors_before, insert_error, errors_first, line_in, with_line, checks, validate_with,
}

unfoldable pub warnings : List Error → List Error
warnings [] = []
warnings (e ∷ l) = let rest = warnings l in if e.severity == "error" then rest else e ∷ rest

insert-error :
    (e : Error) (xs : List Error) → (e.severity == "error") ≡ true → insert_error e xs ≡ e ∷ xs
unfolding insert_error errors_before
insert-error e [] h = refl
insert-error e (x ∷ xs) h =
    ground
      (arith, h, eq_iff e.severity "error", eq_iff x.severity "error", eq_iff x.severity e.severity)

insert-errors :
    (e : Error) (xs ws : List Error)
    → (e.severity == "error") ≡ false
    → insert_error e (errors xs ++ ws) ≡ errors xs ++ insert_error e ws
unfolding insert_error errors_before errors
insert-errors e [] ws h = refl
insert-errors e (x ∷ xs) ws h = elim (Bool-cases (x.severity == "error")) [
  | inl k ↦ ground (
    arith,
    h,
    k,
    insert-errors e xs ws h,
    eq_iff x.severity "error",
    eq_iff x.severity e.severity,
  )
  | inr k ↦ rw k (insert-errors e xs ws h)
]

insert-warnings :
    (e : Error) (xs : List Error)
    → (e.severity == "error") ≡ false
    → insert_error e (warnings xs) ≡ e ∷ warnings xs
unfolding insert_error errors_before warnings
insert-warnings e [] h = refl
insert-warnings e (x ∷ xs) h = elim (Bool-cases (x.severity == "error")) [
  | inl k ↦ rw k (insert-warnings e xs h)
  | inr k ↦ rw k (ground (arith, k))
]

-- The stable sort of the findings keeps the order of the errors and of the warnings, the errors first.
pub errors_first_lem : (l : List Error) → errors_first l ≡ errors l ++ warnings l
unfolding errors_first errors warnings
errors_first_lem [] = refl
errors_first_lem (e ∷ l) = elim (Bool-cases (e.severity == "error")) [
  | inl k ↦ rw (k, errors_first_lem l) (insert-error e (errors l ++ warnings l) k)
  | inr k ↦
      rw (k, errors_first_lem l)
        (insert-errors e l (warnings l) k ∙ ap (λ ws. errors l ++ ws) (insert-warnings e l k))
]

errors-twice : (l : List Error) → errors (errors l) ≡ errors l
unfolding errors
errors-twice [] = refl
errors-twice (e ∷ l) = ground (arith, errors-twice l)

errors-warnings : (l : List Error) → errors (warnings l) ≡ []
unfolding errors warnings
errors-warnings [] = refl
errors-warnings (e ∷ l) = ground (arith, errors-warnings l)

errors-errors_first : (l : List Error) → errors (errors_first l) ≡ errors l
errors-errors_first l =
    ap errors (errors_first_lem l)
    ∙ errors-append (errors l) (warnings l)
    ∙ (rw (errors-twice l, errors-warnings l) (append-nil (errors l)))

module _ (line_of : Doc → String → ℕ) where
  severity-line_in : (o : Option Doc) (e : Error) → (line_in line_of o e).severity ≡ e.severity
  severity-line_in none e = refl
  severity-line_in (some o) e =
      if_both (λ (x : Error). x.severity ≡ e.severity) (e.path == "") e
        (record e { line = line_of o e.path }) refl refl

  errors-with_line :
      (ls : List Located)
      → errors (map (with_line line_of) ls) ≡ []
      → errors (map (λ (l : Located). l.error) ls) ≡ []
  unfolding errors with_line
  errors-with_line [] h = refl
  errors-with_line (l ∷ ls) h = ground (arith, severity-line_in l.obj l.error, errors-with_line ls)

module _ (netip : Texts) (shipped : Shipped) (schema : Doc → List Issue)
    (line_of : Doc → String → ℕ) (t : Tree) (appliance : Bool) where
  -- What the checks guarantee when they report no error, a tree has that no finding blocks.
  pub validate-Passes :
      (P : Type 0)
      → errors (validate_with netip shipped schema line_of t appliance) ≡ []
      → Passes (checks netip shipped schema t appliance) (λ u. P)
      → P
  unfolding Passes validate_with
  validate-Passes P h pass =
      let out : List Located =
        (checks netip shipped schema t appliance (record { cur = none; file = "" })).found in
      pass (record { cur = none; file = "" })
        (errors-with_line line_of out (sym (errors-errors_first (map (with_line line_of) out)) ∙ h))
