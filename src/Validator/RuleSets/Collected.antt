-- ===== src/Validator/RuleSets/Collected.antt =====
-- rulesets.go, `rulesets`: the dnat Policies that the loops collect, and that they are disjoint.
use songbird_prototypes.Prelude.{
  ℕ, ◌+◌, String, ◌≡◌, refl, sym, ap, ◌∙◌, subst, inl, inr, Bool, ◌&&◌, not, List, [], ◌∷◌, ◌++◌,
  ◌==◌, if◌then◌else◌, Bool-cases,
}
use mathlib.Core.List.{append_assoc, append-nil}
use songbird_prototypes.Model.Types.{Object, Rule, RuleSetSpec, rule_enabled}
use songbird_prototypes.Model.Tree.{Tree}
use songbird_prototypes.Netip.{Texts}
use songbird_prototypes.Validator.Checks.{Env, return, fold, fold_from}
use songbird_prototypes.Validator.Checks.Passing.{
  Passes, Passes-any, Passes-if, Passes-return, Passes-bind, Passes-second, Passes-weaken,
}
use songbird_prototypes.Validator.RuleSets.Overlaps.{DnatRule, dnat_overlaps}
use songbird_prototypes.Validator.RuleSets.Policies.{
  Dnats, Seen, dnat_of, target_of, dnat_rule, collect, policy, rule_set, rule_sets,
}
use songbird_prototypes.Validator.RuleSets.Disjoint.{AreDisjointAfter, overlaps_after-Passes}

-- An enabled dnat Policy with a target address.
abbrev translates : Rule → Bool
translates r = dnat_of r.nat && rule_enabled r && not (target_of r.nat == "")

module _ (netip : Texts) (t : Tree) where
  policies_of : Object RuleSetSpec → ℕ → List Rule → List DnatRule
  policies_of rs k [] = []
  policies_of rs k (r ∷ rules) =
      let rest = policies_of rs (k + 1) rules in
      if translates r then dnat_rule netip t rs k r ∷ rest else rest

  -- All of them, in the order of the RuleSets and their Policies.
  unfoldable pub dnat_policies : List (Object RuleSetSpec) → List DnatRule
  unfolding policies_of
  dnat_policies [] = []
  dnat_policies (rs ∷ rest) = policies_of rs 0 rs.spec.rules ++ dnat_policies rest

module _ (netip : Texts) (env : Env) where
  collect-Passes :
      (rs : Object RuleSetSpec) (i : ℕ) (r : Rule) (ds : Dnats)
      → Passes
          (collect netip env rs i r ds)
          (λ ds'. ds'.rules ≡ ds.rules ++ dnat_rule netip env.t rs i r ∷ [])
  unfolding collect
  collect-Passes rs i r ds =
      Passes-second _ _ _ (Passes-second _ _ _ (Passes-second _ _ _ (Passes-return _ _ refl)))

  abbrev added : Object RuleSetSpec → ℕ → Rule → List DnatRule
  added rs i r = if translates r then dnat_rule netip env.t rs i r ∷ [] else []

  policy-Passes :
      (rs : Object RuleSetSpec) (i : ℕ) (r : Rule) (s : Seen)
      → Passes (policy netip env rs i r s) (λ s'. s'.dnats.rules ≡ s.dnats.rules ++ added rs i r)
  unfolding policy
  policy-Passes rs i r s = Passes-second _ _ _ (
      Passes-second _ _ _ (
        Passes-second _ _ _ (
          Passes-second _ _ _ (
            Passes-second _ _ _ (
              Passes-second _ _ _ (
                Passes-bind _ (λ ds. ds.rules ≡ s.dnats.rules ++ added rs i r) _ _
                  (Passes-if (λ ds. ds.rules ≡ s.dnats.rules ++ added rs i r) (translates r)
                    (collect netip env rs i r s.dnats) (return s.dnats)
                    (λ e. rw e (collect-Passes rs i r s.dnats))
                    (λ e. rw e (Passes-return _ s.dnats (sym (append-nil s.dnats.rules)))))
                  (λ ds h. Passes-return _ _ h)))))))

  policies_of-cons :
      (rs : Object RuleSetSpec) (k : ℕ) (r : Rule) (rules : List Rule)
      → policies_of netip env.t rs k (r ∷ rules)
        ≡ added rs k r ++ policies_of netip env.t rs (k + 1) rules
  unfolding policies_of
  policies_of-cons rs k r rules = elim (Bool-cases (translates r)) [ inl e ↦ rw e | inr e ↦ rw e ]

  policies_of_nil :
      (rs : Object RuleSetSpec) (k : ℕ) (l : List DnatRule)
      → l ≡ l ++ policies_of netip env.t rs k []
  unfolding policies_of
  policies_of_nil rs k l = sym (append-nil l)

  -- What a first step and the rest add to a list.
  both_added :
      (a b c xs ys zs : List DnatRule) → b ≡ a ++ xs → c ≡ b ++ ys → zs ≡ xs ++ ys → c ≡ a ++ zs
  both_added a b c xs ys zs h k e =
      k ∙ ap (λ l. l ++ ys) h ∙ append_assoc a xs ys ∙ ap (λ l. a ++ l) (sym e)

  policies-Passes :
      (rs : Object RuleSetSpec) (k : ℕ) (rules : List Rule) (s : Seen)
      → Passes
          (fold_from k rules (policy netip env rs) s)
          (λ s'. s'.dnats.rules ≡ s.dnats.rules ++ policies_of netip env.t rs k rules)
  unfolding fold_from
  policies-Passes rs k [] s = Passes-return _ s (policies_of_nil rs k s.dnats.rules)
  policies-Passes rs k (r ∷ rules) s =
      Passes-bind _ (λ s'. s'.dnats.rules ≡ s.dnats.rules ++ added rs k r) _ _
        (policy-Passes rs k r s)
        (λ s₁ h.
          Passes-weaken _
            (λ s₂ h₂.
              both_added s.dnats.rules s₁.dnats.rules s₂.dnats.rules _ _ _ h h₂
                (policies_of-cons rs k r rules))
            (policies-Passes rs (k + 1) rules s₁))

  rule_set-Passes :
      (rs : Object RuleSetSpec) (pairs : List (String × String)) (ds : Dnats)
      → Passes
          (rule_set netip env rs (pairs, ds))
          (λ x. x.1.rules ≡ ds.rules ++ policies_of netip env.t rs 0 rs.spec.rules)
  unfolding rule_set
  rule_set-Passes rs pairs ds = Passes-second _ _ _ (
      Passes-bind _ _ _ _ (Passes-any _) (λ from u. Passes-bind _ _ _ _ (Passes-any _) (λ to u'.
        Passes-second _ _ _ (
          Passes-second _ _ _ (
            Passes-second _ _ _ (
              Passes-bind _
                (λ seen. seen.dnats.rules ≡ ds.rules ++ policies_of netip env.t rs 0 rs.spec.rules)
                _ _
                (policies-Passes rs 0 rs.spec.rules
                  (record { enabled = 0; names = []; dnats = ds }))
                (λ seen h. Passes-second _ _ _ (Passes-return _ _ h))))))))

  rule_sets-fold :
      (sets : List (Object RuleSetSpec)) (x : List (String × String) × Dnats)
      → Passes
          (fold sets (rule_set netip env) x)
          (λ y. y.1.rules ≡ x.1.rules ++ dnat_policies netip env.t sets)
  unfolding fold dnat_policies
  rule_sets-fold [] x = Passes-return _ x (sym (append-nil x.1.rules))
  rule_sets-fold (rs ∷ sets) (pairs, ds) =
      Passes-bind _ (λ y. y.1.rules ≡ ds.rules ++ policies_of netip env.t rs 0 rs.spec.rules) _ _
        (rule_set-Passes rs pairs ds)
        (λ y h.
          Passes-weaken _ (λ z h₂. both_added ds.rules y.1.rules z.1.rules _ _ _ h h₂ refl)
            (rule_sets-fold sets y))

  pub rule_sets-Passes :
      Passes
        (rule_sets netip env)
        (λ u. AreDisjointAfter [] (dnat_policies netip env.t env.t.rule_sets))
  unfolding rule_sets dnat_overlaps
  rule_sets-Passes = Passes-second _ _ _ (
      Passes-bind _ (λ x. x.1.rules ≡ dnat_policies netip env.t env.t.rule_sets) _ _
        (rule_sets-fold env.t.rule_sets ([], record { rules = []; entries = 0 }))
        (λ x h.
          subst (λ l. Passes (dnat_overlaps x.1.rules) (λ u. AreDisjointAfter [] l)) h
            (overlaps_after-Passes [] x.1.rules)))
