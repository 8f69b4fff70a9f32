-- ===== src/Validator/RuleSets/Disjoint.antt =====
-- rulesets.go, `dnatOverlaps`: when the check passes, two dnat Policies with a common incoming Interface
-- have no packet in common.
use songbird_prototypes.Prelude.{
  ℕ, String, ◌≡◌, sym, ◌∙◌, subst, inl, inr, true, false, List, [], ◌∷◌, ◌++◌, arith, ◌==◌, eq_iff,
  Bool-cases, All, contains,
}
use mathlib.Core.Bool.{true≢false}
use songbird_prototypes.Model.Tree.{rule_set_doc}
use songbird_prototypes.Validator.Checks.{done, at, when}
use songbird_prototypes.Validator.Checks.Passing.{
  Passes, Passes-if, Passes-return, Passes-both, Passes-second, Passes-err, Passes-for,
}
use songbird_prototypes.Validator.Sets.Points.{
  in_addr, in_svc, addr_overlaps-in_addr, svc_overlaps-in_svc,
}
use songbird_prototypes.Validator.RuleSets.Overlaps.{
  DnatRule, shared_in, collide, pair_check, overlaps_after,
}

-- A packet that enters through an Interface of the Policy, for an address, a protocol and a port of it.
unfoldable pub Translates : DnatRule → String → ℕ → String → ℕ → Type 0
Translates d i addr proto port =
    (contains d.in_ifs i ≡ true) × (in_addr d.dst addr ≡ true) × (in_svc d.svc proto port ≡ true)

-- No packet is for both. Interfaces have names that are not empty.
unfoldable pub AreDisjoint : DnatRule → DnatRule → Type 0
AreDisjoint a b =
    (i : String) (addr : ℕ) (proto : String) (port : ℕ)
    → contains a.in_ifs "" ≡ false
    → Translates a i addr proto port
    → Translates b i addr proto port
    → ⊥

shared_in-some :
    (xs ys : List String) (i : String)
    → contains xs "" ≡ false
    → contains xs i ≡ true
    → contains ys i ≡ true
    → (shared_in xs ys == "") ≡ false
unfolding shared_in
shared_in-some [] ys i named hx hy = cc
shared_in-some (x ∷ xs) ys i named hx hy = elim (Bool-cases (contains ys x)) [
  | inl e ↦ rw e (ground (arith, named))
  | inr e ↦ elim (Bool-cases (x == i)) [
    | inl same ↦
        absurd (true≢false (sym hy ∙ subst (λ y. contains ys y ≡ false) ((eq_iff x i).0 same) e))
    | inr other ↦ rw e (shared_in-some xs ys i (ground (arith, named)) (rw other at hx) hy)
  ]
]

collide-AreDisjoint : (a b : DnatRule) → collide a b ≡ false → AreDisjoint a b
unfolding collide AreDisjoint Translates
collide-AreDisjoint a b h i addr proto port named (ia, da, sa) (ib, db, sb) = true≢false (
    sym (
      rw (
        shared_in-some a.in_ifs b.in_ifs i named ia ib,
        addr_overlaps-in_addr a.dst b.dst addr da db,
        svc_overlaps-in_svc a.svc b.svc proto port sa sb,
      ))
    ∙ h)

pair-Passes : (b a : DnatRule) → Passes (pair_check b a) (λ u. AreDisjoint a b)
unfolding pair_check when
pair-Passes b a =
    Passes-if (λ u. AreDisjoint a b) (collide a b) _ done
      (λ e.
        Passes-second (λ u. AreDisjoint a b) (at (rule_set_doc b.rs)) _
          (Passes-err (λ u. AreDisjoint a b) _ _ _ _))
      (λ e. Passes-return (λ u. AreDisjoint a b) tt (collide-AreDisjoint a b e))

-- Each is disjoint from those before it.
abbrev pub AreDisjointAfter : List DnatRule → List DnatRule → Type 0
AreDisjointAfter earlier [] = Unit {0}
AreDisjointAfter earlier (b ∷ rest) =
    All (λ a. AreDisjoint a b) earlier × AreDisjointAfter (earlier ++ b ∷ []) rest

pub overlaps_after-Passes :
    (earlier ds : List DnatRule)
    → Passes (overlaps_after earlier ds) (λ u. AreDisjointAfter earlier ds)
unfolding overlaps_after
overlaps_after-Passes earlier [] = Passes-return (λ u. Unit {0}) tt tt
overlaps_after-Passes earlier (b ∷ rest) =
    Passes-both _ _ _ _ (Passes-for (λ a. AreDisjoint a b) earlier (pair_check b) (pair-Passes b))
      (overlaps_after-Passes (earlier ++ b ∷ []) rest)
