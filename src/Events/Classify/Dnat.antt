-- ===== src/Events/Classify/Dnat.antt =====
-- classify.go, `Classify`: what the rules of a DNAT candidate's RuleSet decide.
use songbird_prototypes.Prelude.{
  String, ◌≡◌, refl, sym, ap, ◌∙◌, subst, inl, inr, true, false, Option, none, some, List, [], ◌∷◌,
  arith, ◌==◌, eq_iff, Bool-cases, if_both, ne_of_test,
}
use mathlib.Core.Option.{none-ne-some, some-injective}
use songbird_prototypes.Model.Types.{Rule}
use songbird_prototypes.Model.Tree.{Tree}
use songbird_prototypes.Netip.{Texts}
use songbird_prototypes.Events.Classify.{Flow, Verdict, dropped, matches, dnat_decides}
use songbird_prototypes.Events.Classify.Firsts.{IsFirst, IsFirst-here, IsFirst-later}

abbrev pub action_of : Option Verdict → String
action_of none = ""
action_of (some v) = v.action

module _ (netip : Texts) (t : Tree) (f : Flow) where
  -- A DNAT candidate that accepts: the first rule that matches has its name.
  pub record Decided (r : Rule) (v w : Verdict) (rules : List Rule) : Type 0 where
    pub deciding : Rule
    pub first : IsFirst (λ e. matches netip t e f) deciding rules
    pub decides : deciding.name ≡ r.name
    pub out_if : w.out_if ≡ v.out_if
    pub rule_set : w.rule_set ≡ v.rule_set
    pub policy : w.policy ≡ deciding.name

  decides-skip :
      (r : Rule) (v : Verdict) (e : Rule) (rest : List Rule)
      → matches netip t e f ≡ false
      → dnat_decides netip t f r v (e ∷ rest) ≡ dnat_decides netip t f r v rest
  unfolding dnat_decides
  decides-skip r v e rest h = rw (dnat_decides, h) refl

  decides-accept :
      (r : Rule) (v : Verdict) (e : Rule) (rest : List Rule)
      → matches netip t e f ≡ true
      → (e.name == r.name) ≡ true
      → dnat_decides netip t f r v (e ∷ rest)
        ≡ some (record v { policy = e.name; action = "accept"; reason = "policy"; nat = r.nat })
  unfolding dnat_decides
  decides-accept r v e rest h same = rw (dnat_decides, h) (rw same refl)

  decides-drop :
      (r : Rule) (v w : Verdict) (e : Rule) (rest : List Rule)
      → matches netip t e f ≡ true
      → (e.name == r.name) ≡ false
      → dnat_decides netip t f r v (e ∷ rest) ≡ some w
      → w.action ≡ "drop"
  unfolding dnat_decides
  decides-drop r v w e rest h other q =
      let Drops = λ (o : Option Verdict). action_of o ≡ "drop" in
      let v' = record v { policy = e.name; xdst = "" } in
      let drops : Drops (dnat_decides netip t f r v (e ∷ rest)) =
        rw (dnat_decides, h)
          (rw other (
            if_both Drops (e.action == "drop") (some (dropped "policy" v'))
              (some (dropped "dnat-shadowed" v')) refl refl)) in
      sym (ap action_of q) ∙ drops

  pub dnat_decides-Decided :
      (r : Rule) (v w : Verdict) (rules : List Rule)
      → dnat_decides netip t f r v rules ≡ some w
      → w.action ≡ "accept"
      → Decided r v w rules
  unfolding dnat_decides
  dnat_decides-Decided r v w [] h a = absurd (none-ne-some w h)
  dnat_decides-Decided r v w (e ∷ rest) h a = elim (Bool-cases (matches netip t e f)) [
    | inr miss ↦
        let d = dnat_decides-Decided r v w rest (sym (decides-skip r v e rest miss) ∙ h) a in
        record {
          deciding = d.deciding;
          first = IsFirst-later (λ x. matches netip t x f) e d.deciding rest miss d.first;
          decides = d.decides;
          out_if = d.out_if;
          rule_set = d.rule_set;
          policy = d.policy;
        }
    | inl hit ↦ elim (Bool-cases (e.name == r.name)) [
      | inl same ↦
          let v' = record v {
            policy = e.name;
            action = "accept";
            reason = "policy";
            nat = r.nat;
          } in
          let is_w : v' ≡ w = some-injective v' w (sym (decides-accept r v e rest hit same) ∙ h) in
          subst (λ w. Decided r v w (e ∷ rest)) is_w
            (record {
              deciding = e;
              first = IsFirst-here (λ x. matches netip t x f) e rest hit;
              decides = ground (arith, eq_iff e.name r.name);
              out_if = refl;
              rule_set = refl;
              policy = refl;
            })
      | inr other ↦
          absurd (ne_of_test "drop" "accept" refl (sym (decides-drop r v w e rest hit other h) ∙ a))
    ]
  ]
