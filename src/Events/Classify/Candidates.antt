-- ===== src/Events/Classify/Candidates.antt =====
-- classify.go, `Classify`: the DNAT candidates.
use songbird_prototypes.Prelude.{
  ◌≡◌, refl, sym, ap, ◌∙◌, inl, inr, Bool, true, false, ◌||◌, not, Option, none, some, List, [],
  ◌∷◌, arith, ◌==◌, eq_iff, if◌then◌else◌, Bool-cases, Option-cases, contains, ne_of_test,
}
use mathlib.Core.Option.{none-ne-some}
use songbird_prototypes.Model.Types.{Object, Rule, RuleSetSpec, Nat}
use songbird_prototypes.Model.Objects.{name_of}
use songbird_prototypes.Model.Tree.{Tree}
use songbird_prototypes.Model.Lookups.{side}
use songbird_prototypes.Netip.{Addr, Texts}
use songbird_prototypes.Events.Routes.{route}
use songbird_prototypes.Events.Classify.{
  Flow, Verdict, dropped, governing, matches, first_ip, dnat_decides, dnat_verdict, dnat_candidate,
  dnat_rule, dnat_rules, dnat_sets,
}
use songbird_prototypes.Events.Classify.Firsts.{Among, Among-later}
use songbird_prototypes.Events.Classify.Dnat.{action_of, Decided, dnat_decides-Decided}

module _ (netip : Texts) (t : Tree) (f : Flow) where
  -- The candidate once its address is known.
  pub record Passed (set : Object RuleSetSpec) (rule : Rule) (nat : Nat) (to : Addr) (v : Verdict)
      : Type 0 where
    pub governing_set : Object RuleSetSpec
    pub governs : governing t f.in_if (route netip to t) ≡ some governing_set
    pub same : name_of governing_set ≡ name_of set
    pub decided :
        Decided netip t f rule
          (record (dnat_verdict netip t f nat to) { rule_set = name_of set })
          v
          set.spec.rules

  candidate-none :
      (set : Object RuleSetSpec) (r : Rule) (n : Nat) (to : Addr)
      → governing t f.in_if (route netip to t) ≡ none
      → dnat_candidate netip t f set r n (some to)
        ≡ some (
            dropped "dnat-route-mismatch"
              (record (dnat_verdict netip t f n to) { rule_set = name_of set }))
  unfolding dnat_candidate
  candidate-none set r n to g = rw (dnat_candidate, g) refl

  candidate-some :
      (set : Object RuleSetSpec) (r : Rule) (n : Nat) (to : Addr) (gov : Object RuleSetSpec)
      → governing t f.in_if (route netip to t) ≡ some gov
      → let v = record (dnat_verdict netip t f n to) { rule_set = name_of set } in
        dnat_candidate netip t f set r n (some to) ≡ (
          if name_of gov == name_of set
          then dnat_decides netip t f r v set.spec.rules
          else some (dropped "dnat-route-mismatch" v))
  unfolding dnat_candidate
  candidate-some set r n to gov g = rw (dnat_candidate, g) refl

  dnat_candidate-Passed :
      (set : Object RuleSetSpec) (r : Rule) (n : Nat) (to : Addr) (w : Verdict)
      → dnat_candidate netip t f set r n (some to) ≡ some w
      → w.action ≡ "accept"
      → Passed set r n to w
  dnat_candidate-Passed set r n to w h a =
      let v = record (dnat_verdict netip t f n to) { rule_set = name_of set } in
      let passes = λ (b : Bool).
        if b
        then dnat_decides netip t f r v set.spec.rules
        else some (dropped "dnat-route-mismatch" v) in
      elim (Option-cases (governing t f.in_if (route netip to t))) [
        | inl g ↦ absurd (
            ne_of_test "drop" "accept" refl
              (ap action_of (sym (candidate-none set r n to g) ∙ h) ∙ a))
        | inr (gov, g) ↦ elim (Bool-cases (name_of gov == name_of set)) [
          | inl same ↦ record {
            governing_set = gov;
            governs = g;
            same = ground (arith, eq_iff (name_of gov) (name_of set));
            decided =
                dnat_decides-Decided netip t f r v w set.spec.rules
                  (sym (candidate-some set r n to gov g ∙ ap passes same) ∙ h) a;
          }
          | inr other ↦ absurd (
              ne_of_test "drop" "accept" refl
                (ap action_of (sym (candidate-some set r n to gov g ∙ ap passes other) ∙ h) ∙ a))
        ]
      ]

  -- What is known of a RuleSet and one of its rules.
  unfoldable pub Candidate : Object RuleSetSpec → Verdict → Rule → Type 0
  Candidate set w r =
      (n : Nat) × (to : Addr) × (r.nat ≡ some n)
      × (n.type ≡ "dnat")
      × (matches netip t r f ≡ true)
      × (first_ip netip t n.translate_ip_to ≡ some to)
      × Passed set r n to w

  rule-hit :
      (set : Object RuleSetSpec) (r : Rule) (n : Nat)
      → (not (n.type == "dnat") || not (matches netip t r f)) ≡ false
      → dnat_rule netip t f set r (some n)
        ≡ dnat_candidate netip t f set r n (first_ip netip t n.translate_ip_to)
  unfolding dnat_rule
  rule-hit set r n h = rw (dnat_rule, h) refl

  dnat_rule-Candidate :
      (set : Object RuleSetSpec) (r : Rule) (o : Option Nat) (w : Verdict)
      → r.nat ≡ o
      → dnat_rule netip t f set r o ≡ some w
      → w.action ≡ "accept"
      → Candidate set w r
  unfolding dnat_rule dnat_candidate Candidate
  dnat_rule-Candidate set r none w e h a = absurd (none-ne-some w h)
  dnat_rule-Candidate set r (some n) w e h a =
      elim (Bool-cases (not (n.type == "dnat") || not (matches netip t r f))) [
        | inl skip ↦ absurd (none-ne-some w (sym (rw (dnat_rule, skip) refl) ∙ h))
        | inr hit ↦ elim (Option-cases (first_ip netip t n.translate_ip_to)) [
          | inl lost ↦ absurd (
              none-ne-some w
                (sym (rule-hit set r n hit ∙ ap (dnat_candidate netip t f set r n) lost) ∙ h))
          | inr (to, found) ↦ (
            n,
            to,
            e,
            ground (arith, hit, eq_iff n.type "dnat"),
            ground (arith, hit),
            found,
            dnat_candidate-Passed set r n to w
                (sym (rule-hit set r n hit ∙ ap (dnat_candidate netip t f set r n) found) ∙ h) a,
          )
        ]
      ]

  rules-later :
      (set : Object RuleSetSpec) (r : Rule) (rest : List Rule)
      → dnat_rule netip t f set r r.nat ≡ none
      → dnat_rules netip t f set (r ∷ rest) ≡ dnat_rules netip t f set rest
  unfolding dnat_rules
  rules-later set r rest h = rw (dnat_rules, h) refl

  rules-hit :
      (set : Object RuleSetSpec) (r : Rule) (rest : List Rule) (v : Verdict)
      → dnat_rule netip t f set r r.nat ≡ some v
      → dnat_rules netip t f set (r ∷ rest) ≡ some v
  unfolding dnat_rules
  rules-hit set r rest v h = rw (dnat_rules, h) refl

  sets-out :
      (set : Object RuleSetSpec) (rest : List (Object RuleSetSpec))
      → contains (side t set.spec.from) f.in_if ≡ false
      → dnat_sets netip t f (set ∷ rest) ≡ dnat_sets netip t f rest
  unfolding dnat_sets
  sets-out set rest h = rw (dnat_sets, h) refl

  sets-later :
      (set : Object RuleSetSpec) (rest : List (Object RuleSetSpec))
      → contains (side t set.spec.from) f.in_if ≡ true
      → dnat_rules netip t f set set.spec.rules ≡ none
      → dnat_sets netip t f (set ∷ rest) ≡ dnat_sets netip t f rest
  unfolding dnat_sets
  sets-later set rest h q = rw (dnat_sets, h, q) refl

  sets-hit :
      (set : Object RuleSetSpec) (rest : List (Object RuleSetSpec)) (v : Verdict)
      → contains (side t set.spec.from) f.in_if ≡ true
      → dnat_rules netip t f set set.spec.rules ≡ some v
      → dnat_sets netip t f (set ∷ rest) ≡ some v
  unfolding dnat_sets
  sets-hit set rest v h q = rw (dnat_sets, h, q) refl

  dnat_rules-Candidate :
      (set : Object RuleSetSpec) (rules : List Rule) (w : Verdict)
      → dnat_rules netip t f set rules ≡ some w
      → w.action ≡ "accept"
      → (r : Rule) × Among r rules × Candidate set w r
  unfolding dnat_rules Among
  dnat_rules-Candidate set [] w h a = absurd (none-ne-some w h)
  dnat_rules-Candidate set (r ∷ rest) w h a =
      elim (Option-cases (dnat_rule netip t f set r r.nat)) [
        | inl miss ↦
            let (x, among, c) =
              dnat_rules-Candidate set rest w (sym (rules-later set r rest miss) ∙ h) a in
            (x, Among-later x r rest among, c)
        | inr (v, hit) ↦ (
          r,
          ([], rest, refl),
          dnat_rule-Candidate set r r.nat w refl (hit ∙ sym (rules-hit set r rest v hit) ∙ h) a,
        )
      ]

  pub dnat_sets-Candidate :
      (sets : List (Object RuleSetSpec)) (w : Verdict)
      → dnat_sets netip t f sets ≡ some w
      → w.action ≡ "accept"
      → (set : Object RuleSetSpec) × Among set sets
        × (contains (side t set.spec.from) f.in_if ≡ true)
        × (r : Rule) × Among r set.spec.rules
        × Candidate set w r
  unfolding dnat_sets Among
  dnat_sets-Candidate [] w h a = absurd (none-ne-some w h)
  dnat_sets-Candidate (set ∷ rest) w h a =
      elim (Bool-cases (contains (side t set.spec.from) f.in_if)) [
        | inr out ↦
            let (x, among, from, r, listed, c) =
              dnat_sets-Candidate rest w (sym (sets-out set rest out) ∙ h) a in
            (x, Among-later x set rest among, from, r, listed, c)
        | inl from ↦ elim (Option-cases (dnat_rules netip t f set set.spec.rules)) [
          | inl miss ↦
              let (x, among, from', r, listed, c) =
                dnat_sets-Candidate rest w (sym (sets-later set rest from miss) ∙ h) a in
              (x, Among-later x set rest among, from', r, listed, c)
          | inr (v, hit) ↦
              let hit_rules =
                dnat_rules-Candidate set set.spec.rules w
                  (hit ∙ sym (sets-hit set rest v from hit) ∙ h) a in
              (set, ([], rest, refl), from, hit_rules.0, hit_rules.1, hit_rules.2)
        ]
      ]
