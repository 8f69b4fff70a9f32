-- ===== src/Events/Classify/Policies.antt =====
-- classify.go, `Classify`: the first Policy that matches in a RuleSet.
use songbird_prototypes.Prelude.{
  ◌≡◌, refl, sym, ap, ◌∙◌, subst, inl, inr, true, false, ◌&&◌, ◌||◌, not, Option, none, some, List,
  [], ◌∷◌, arith, ◌==◌, if◌then◌else◌, Bool-cases, Option-cases, if_both, ne_of_test,
}
use songbird_prototypes.Model.Types.{Rule, Nat}
use songbird_prototypes.Model.Tree.{Tree}
use songbird_prototypes.Netip.{Texts}
use songbird_prototypes.Events.Classify.{
  Flow, Verdict, is_dnat, matches, first_ip, snat, first_match, interface_ip,
}
use songbird_prototypes.Events.Classify.Firsts.{IsFirst, IsFirst-here, IsFirst-later}

module _ (netip : Texts) (t : Tree) (f : Flow) where
  -- The first match of a RuleSet: an accepting one has a Policy that accepts.
  pub record Matched (v w : Verdict) (rules : List Rule) : Type 0 where
    pub rule : Rule
    pub first : IsFirst (λ r. not (is_dnat r) && matches netip t r f) rule rules
    pub accepts : rule.action ≡ "accept"
    pub out_if : w.out_if ≡ v.out_if
    pub rule_set : w.rule_set ≡ v.rule_set
    pub policy : w.policy ≡ rule.name

  -- What the source address leaves as it is.
  record SameDecision (v w : Verdict) : Type 0 where
    pub action : w.action ≡ v.action
    pub out_if : w.out_if ≡ v.out_if
    pub rule_set : w.rule_set ≡ v.rule_set
    pub policy : w.policy ≡ v.policy

  SameDecision-self : (v : Verdict) → SameDecision v v
  SameDecision-self v = record { action = refl; out_if = refl; rule_set = refl; policy = refl }

  snat-SameDecision : (o : Option Nat) (v : Verdict) → SameDecision v (snat netip t o v)
  unfolding snat
  snat-SameDecision none v = SameDecision-self v
  snat-SameDecision (some n) v =
      let address =
        if n.translate_ip_to == ""
        then interface_ip netip t v.out_if
        else first_ip netip t n.translate_ip_to in
      elim (Bool-cases (not (n.type == "snat"))) [
        | inl e ↦ rw e (SameDecision-self v)
        | inr e ↦ elim (Option-cases address) [
          | inl q ↦
              rw (e, q) (record { action = refl; out_if = refl; rule_set = refl; policy = refl })
          | inr (ip, q) ↦
              rw (e, q) (record { action = refl; out_if = refl; rule_set = refl; policy = refl })
        ]
      ]

  first_match-skip :
      (v : Verdict) (r : Rule) (rest : List Rule)
      → (is_dnat r || not (matches netip t r f)) ≡ true
      → first_match netip t f v (r ∷ rest) ≡ first_match netip t f v rest
  unfolding first_match
  first_match-skip v r rest h = rw (first_match, h) refl

  first_match-take :
      (v : Verdict) (r : Rule) (rest : List Rule)
      → (is_dnat r || not (matches netip t r f)) ≡ false
      → SameDecision
          (record v { policy = r.name; action = r.action })
          (first_match netip t f v (r ∷ rest))
  unfolding first_match
  first_match-take v r rest h =
      let v' = record v { policy = r.name; action = r.action; reason = "policy" } in
      let d = snat-SameDecision r.nat v' in
      rw (first_match, h)
        (if_both (SameDecision (record v { policy = r.name; action = r.action }))
          (r.action == "accept") (snat netip t r.nat v') v'
          (record {
            action = d.action;
            out_if = d.out_if;
            rule_set = d.rule_set;
            policy = d.policy;
          })
          (record { action = refl; out_if = refl; rule_set = refl; policy = refl }))

  pub first_match-Matched :
      (v : Verdict) (rules : List Rule)
      → (first_match netip t f v rules).action ≡ "accept"
      → Matched v (first_match netip t f v rules) rules
  unfolding first_match
  first_match-Matched v [] h = absurd (ne_of_test "drop" "accept" refl h)
  first_match-Matched v (r ∷ rest) h = elim (Bool-cases (is_dnat r || not (matches netip t r f))) [
    | inl e ↦
        let same = first_match-skip v r rest e in
        let m = first_match-Matched v rest (ap (λ (w : Verdict). w.action) (sym same) ∙ h) in
        subst (λ w. Matched v w (r ∷ rest)) (sym same)
          (record {
            rule = m.rule;
            first =
                IsFirst-later (λ r. not (is_dnat r) && matches netip t r f) r m.rule rest
                  (ground (arith, e)) m.first;
            accepts = m.accepts;
            out_if = m.out_if;
            rule_set = m.rule_set;
            policy = m.policy;
          })
    | inr e ↦
        let d = first_match-take v r rest e in
        record {
          rule = r;
          first =
              IsFirst-here (λ r. not (is_dnat r) && matches netip t r f) r rest (ground (arith, e));
          accepts = sym d.action ∙ h;
          out_if = d.out_if;
          rule_set = d.rule_set;
          policy = d.policy;
        }
  ]
