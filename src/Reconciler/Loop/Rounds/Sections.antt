-- ===== src/Reconciler/Loop/Rounds/Sections.antt =====
-- reconciler.go, `reconcile`: the Plan's sections that differ, and what they become.
use songbird_prototypes.Prelude.{
  String, ◌≡◌, refl, sym, ap, ◌∙◌, subst, ◌⊎◌, inl, inr, Bool, true, List, [], ◌∷◌, arith, ◌==◌,
  eq_iff, if◌then◌else◌, Bool-cases, any, All,
}
use songbird_prototypes.Reconciler.{driver_names, update}
use songbird_prototypes.Reconciler.Loop.{diff, install}

same : (x y : String) → (x == y) ≡ true → x ≡ y
same x y e = ground (arith, eq_iff x y)

if_same : (b : Bool) (s t : String) → t ≡ s → (if b then s else t) ≡ s
if_same b s t e = ground (arith, e)

install-at :
    (sections : String → String) (ds : List String) (applied : String → String) (d : String)
    → install sections ds applied d ≡ (if any (λ e. e == d) ds then sections d else applied d)
unfolding install update
install-at sections [] applied d = refl
install-at sections (x ∷ ds) applied d = elim (Bool-cases (x == d)) [
  | inl e ↦
      install-at sections ds (update applied x (sections x)) d
      ∙ rw e (if_same (any (λ e. e == d) ds) (sections d) (sections x) (ap sections (same x d e)))
  | inr e ↦ install-at sections ds (update applied x (sections x)) d ∙ rw e refl
]

pub diff-any :
    (sections applied : String → String) (names : List String) (d : String)
    → any (λ e. e == d) names ≡ true
    → (any (λ e. e == d) (diff sections applied names) ≡ true) ⊎ (applied d ≡ sections d)
unfolding diff
diff-any sections applied [] d h = ground (arith, h)
diff-any sections applied (x ∷ xs) d h =
    let rest : any (λ e. e == d) xs ≡ true
        → (any (λ e. e == d) (diff sections applied xs) ≡ true) ⊎ (applied d ≡ sections d) =
      diff-any sections applied xs d in
    elim (Bool-cases (x == d)) [
      | inl e ↦ elim (Bool-cases (sections x == applied x)) [
        | inl s ↦ inr (
            sym
              (subst (λ y. sections y ≡ applied y) (same x d e) (same (sections x) (applied x) s)))
        | inr s ↦ inl (rw s (rw e refl))
      ]
      | inr e ↦ elim (Bool-cases (sections x == applied x)) [
        | inl s ↦ rw s (rest (ground (arith, h, e)))
        | inr s ↦ (rw s (rw e (rest (ground (arith, h, e)))))
      ]
    ]

install-diff_at :
    (sections applied : String → String) (d : String)
    → any (λ e. e == d) driver_names ≡ true
    → install sections (diff sections applied driver_names) applied d ≡ sections d
install-diff_at sections applied d h =
    install-at sections (diff sections applied driver_names) applied d
    ∙ elim (diff-any sections applied driver_names d h) [
      | inl e ↦ rw e refl
      | inr e ↦
          if_same (any (λ e. e == d) (diff sections applied driver_names)) (sections d) (applied d)
            e
    ]

-- After the changed sections are put in, every driver has the Plan's section.
pub install-diff :
    (sections applied : String → String)
    → All
        (λ d. install sections (diff sections applied driver_names) applied d ≡ sections d)
        driver_names
install-diff sections applied =
    let at = install-diff_at sections applied in
    (at "network" refl, (at "dataplane" refl, (at "dhcp" refl, (at "dns" refl, tt))))

-- No section differs exactly when all drivers have the Plan's sections.
pub diff-empty :
    (sections applied : String → String) (names : List String)
    → All (λ d. applied d ≡ sections d) names
    → diff sections applied names ≡ []
unfolding diff
diff-empty sections applied [] h = refl
diff-empty sections applied (d ∷ ds) h =
    ground (arith, eq_iff (sections d) (applied d), h.0, diff-empty sections applied ds h.1)
