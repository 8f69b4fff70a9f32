-- ===== src/Events/Classify/Accepted.antt =====
-- classify.go, `Classify`: why a Flow is accepted.
use songbird_prototypes.Prelude.{
  String, ◌≡◌, refl, sym, ap, ◌∙◌, subst, ◌≢◌, ◌⊎◌, inl, inr, Bool, true, false, ◌&&◌, ◌||◌, not,
  Option, none, some, arith, ◌==◌, eq_iff, if◌then◌else◌, Bool-cases, Option-cases, contains,
  ne_of_test,
}
use songbird_prototypes.Model.Types.{Object, Rule, RuleSetSpec, Nat, ZoneSpec}
use songbird_prototypes.Model.Objects.{name_of}
use songbird_prototypes.Model.Tree.{Tree}
use songbird_prototypes.Model.Lookups.{side, zone_of, zone_named}
use songbird_prototypes.Netip.{Addr, Texts}
use songbird_prototypes.Events.Routes.{route}
use songbird_prototypes.Events.Classify.{
  Flow, Verdict, to_interface, dropped, is_dnat, governing, matches, first_ip, dnat_sets,
  first_match, intra_zone, forward, classify,
}
use songbird_prototypes.Events.Classify.Firsts.{Among, IsFirst}
use songbird_prototypes.Events.Classify.Policies.{first_match-Matched}
use songbird_prototypes.Events.Classify.Candidates.{Candidate, dnat_sets-Candidate}

module _ (netip : Texts) (t : Tree) (f : Flow) where
  -- An accepting Policy of the RuleSet that governs the Flow is the first enabled one, DNAT aside,
  -- that matches.
  pub record ByPolicy (v : Verdict) : Type 0 where
    pub set : Object RuleSetSpec
    pub rule : Rule
    pub routed : v.out_if ≡ route netip f.dst t
    pub governs : governing t f.in_if v.out_if ≡ some set
    pub first : IsFirst (λ r. not (is_dnat r) && matches netip t r f) rule set.spec.rules
    pub accepts : rule.action ≡ "accept"
    pub rule_set : v.rule_set ≡ name_of set
    pub policy : v.policy ≡ rule.name

  -- A DNAT Policy that matches translates the Flow to an address whose route is governed by its own
  -- RuleSet, and the first Policy there that matches has its name.
  pub record ByDnat (v : Verdict) : Type 0 where
    pub set : Object RuleSetSpec
    pub governing_set : Object RuleSetSpec
    pub rule : Rule
    pub nat : Nat
    pub to : Addr
    pub deciding : Rule
    pub listed : Among set t.rule_sets
    pub among : Among rule set.spec.rules
    pub from : contains (side t set.spec.from) f.in_if ≡ true
    pub translates : rule.nat ≡ some nat
    pub is_dnat : nat.type ≡ "dnat"
    pub matched : matches netip t rule f ≡ true
    pub target : first_ip netip t nat.translate_ip_to ≡ some to
    pub routed : v.out_if ≡ route netip to t
    pub governs : governing t f.in_if v.out_if ≡ some governing_set
    pub same : name_of governing_set ≡ name_of set
    pub first : IsFirst (λ r. matches netip t r f) deciding set.spec.rules
    pub decides : deciding.name ≡ rule.name
    pub rule_set : v.rule_set ≡ name_of set
    pub policy : v.policy ≡ rule.name

  -- No RuleSet governs, and one Zone that allows it holds both Interfaces.
  pub record ByZone (v : Verdict) : Type 0 where
    pub zone : Object ZoneSpec
    pub routed : v.out_if ≡ route netip f.dst t
    pub ungoverned : governing t f.in_if v.out_if ≡ none
    pub inside : zone_of t f.in_if ≡ zone_of t v.out_if
    pub found : zone_named t (zone_of t f.in_if) ≡ some zone
    pub allows : zone.spec.intra_zone_traffic ≡ "allow"

  forward-ByPolicy :
      (v : Verdict) (set : Object RuleSetSpec)
      → (first_match netip t f (record v { rule_set = name_of set }) set.spec.rules).action
        ≡ "accept"
      → v.out_if ≡ route netip f.dst t
      → governing t f.in_if v.out_if ≡ some set
      → ByPolicy (first_match netip t f (record v { rule_set = name_of set }) set.spec.rules)
  forward-ByPolicy v set h routed governs =
      let m =
        first_match-Matched netip t f (record v { rule_set = name_of set }) set.spec.rules h in
      record {
        set = set;
        rule = m.rule;
        routed = m.out_if ∙ routed;
        governs = ap (governing t f.in_if) m.out_if ∙ governs;
        first = m.first;
        accepts = m.accepts;
        rule_set = m.rule_set;
        policy = m.policy;
      }

  intra_zone-some :
      (v : Verdict) (zone : Object ZoneSpec)
      → let z = zone_of t f.in_if in
        (not (z == "") && (z == zone_of t v.out_if)) ≡ true
        → zone_named t z ≡ some zone
        → intra_zone t f v ≡ (
            if zone.spec.intra_zone_traffic == "allow"
            then record v { action = "accept"; reason = "intra-zone" }
            else dropped "no-ruleset" v)
  unfolding intra_zone
  intra_zone-some v zone h q = rw (intra_zone, h, q) refl

  intra_zone-none :
      (v : Verdict)
      → let z = zone_of t f.in_if in
        (not (z == "") && (z == zone_of t v.out_if)) ≡ true
        → zone_named t z ≡ none
        → intra_zone t f v ≡ dropped "no-ruleset" v
  unfolding intra_zone
  intra_zone-none v h q = rw (intra_zone, h, q) refl

  intra_zone-apart :
      (v : Verdict)
      → let z = zone_of t f.in_if in
        (not (z == "") && (z == zone_of t v.out_if)) ≡ false
        → intra_zone t f v ≡ dropped "no-ruleset" v
  unfolding intra_zone
  intra_zone-apart v h = rw (intra_zone, h) refl

  not_dropped : (w : Verdict) (why : String) (v : Verdict) → w ≡ dropped why v → w.action ≢ "accept"
  not_dropped w why v e a =
      ne_of_test "drop" "accept" refl (sym (ap (λ (x : Verdict). x.action) e) ∙ a)

  intra_zone-ByZone :
      (v : Verdict)
      → (intra_zone t f v).action ≡ "accept"
      → v.out_if ≡ route netip f.dst t
      → governing t f.in_if v.out_if ≡ none
      → ByZone (intra_zone t f v)
  intra_zone-ByZone v h routed ungoverned =
      let z = zone_of t f.in_if in
      let w = intra_zone t f v in
      elim (Bool-cases (not (z == "") && (z == zone_of t v.out_if))) [
        | inr apart ↦ absurd (not_dropped w "no-ruleset" v (intra_zone-apart v apart) h)
        | inl inside ↦ elim (Option-cases (zone_named t z)) [
          | inl lost ↦ absurd (not_dropped w "no-ruleset" v (intra_zone-none v inside lost) h)
          | inr (zone, found) ↦ elim (Bool-cases (zone.spec.intra_zone_traffic == "allow")) [
            | inr denied ↦ absurd (
                not_dropped w "no-ruleset" v
                  (intra_zone-some v zone inside found
                    ∙ ap
                        (λ b.
                          if b
                          then record v { action = "accept"; reason = "intra-zone" }
                          else dropped "no-ruleset" v)
                        denied)
                  h)
            | inl allowed ↦
                subst ByZone
                  (sym (
                    intra_zone-some v zone inside found
                    ∙ ap
                        (λ b.
                          if b
                          then record v { action = "accept"; reason = "intra-zone" }
                          else dropped "no-ruleset" v)
                        allowed))
                  (record {
                    zone = zone;
                    routed = routed;
                    ungoverned = ungoverned;
                    inside = ground (arith, inside, eq_iff z (zone_of t v.out_if));
                    found = found;
                    allows = ground (arith, allowed, eq_iff zone.spec.intra_zone_traffic "allow");
                  })
          ]
        ]
      ]

  abbrev Permits : Verdict → Type 0
  Permits w = ByPolicy w ⊎ ByDnat w ⊎ ByZone w

  forward-Permits :
      (v : Verdict) (o : Option (Object RuleSetSpec))
      → (forward netip t f v o).action ≡ "accept"
      → v.out_if ≡ route netip f.dst t
      → governing t f.in_if v.out_if ≡ o
      → Permits (forward netip t f v o)
  unfolding forward
  forward-Permits v none h routed g = inr (inr (intra_zone-ByZone v h routed g))
  forward-Permits v (some set) h routed g = inl (forward-ByPolicy v set h routed g)

  dnat-ByDnat :
      (w : Verdict) → dnat_sets netip t f t.rule_sets ≡ some w → w.action ≡ "accept" → ByDnat w
  unfolding Candidate
  dnat-ByDnat w h a =
      let (set, listed, from, r, among, c) = dnat_sets-Candidate netip t f t.rule_sets w h a in
      let (n, to, translates, dnat, matched, target, p) = c in
      record {
        set = set;
        governing_set = p.governing_set;
        rule = r;
        nat = n;
        to = to;
        deciding = p.decided.deciding;
        listed = listed;
        among = among;
        from = from;
        translates = translates;
        is_dnat = dnat;
        matched = matched;
        target = target;
        routed = p.decided.out_if;
        governs = ap (governing t f.in_if) p.decided.out_if ∙ p.governs;
        same = p.same;
        first = p.decided.first;
        decides = p.decided.decides;
        rule_set = p.decided.rule_set;
        policy = p.decided.policy ∙ p.decided.decides;
      }

  classify-dnat : (w : Verdict) → dnat_sets netip t f t.rule_sets ≡ some w → classify netip t f ≡ w
  unfolding classify
  classify-dnat w h = rw (classify, h) refl

  classify-routed :
      dnat_sets netip t f t.rule_sets ≡ none
      → let v = to_interface (route netip f.dst t) in
        classify netip t f ≡ (
          if (v.out_if == "") || (v.out_if == f.in_if)
          then dropped "no-ruleset" v
          else forward netip t f v (governing t f.in_if v.out_if))
  unfolding classify
  classify-routed h = rw (classify, h) refl

  -- A Flow is accepted only for one of three reasons: by an accepting Policy, the first that matches,
  -- DNAT Policies aside, in the RuleSet that governs the pair of its Interface and its route; by a DNAT
  -- Policy that matches, whose translated address has its route governed by that Policy's RuleSet,
  -- where the first Policy that matches has its name; or between two Interfaces of one Zone that
  -- allows it, when no RuleSet governs them.
  pub classify-IsPermitted :
      (classify netip t f).action ≡ "accept"
      → ByPolicy (classify netip t f) ⊎ ByDnat (classify netip t f) ⊎ ByZone (classify netip t f)
  classify-IsPermitted h = elim (Option-cases (dnat_sets netip t f t.rule_sets)) [
    | inr (w, hit) ↦
        let e = classify-dnat w hit in
        inr (
          inl
            (subst ByDnat (sym e) (dnat-ByDnat w hit (ap (λ (x : Verdict). x.action) (sym e) ∙ h))))
    | inl miss ↦
        let v = to_interface (route netip f.dst t) in
        let routes = λ (b : Bool).
          if b
          then dropped "no-ruleset" v
          else forward netip t f v (governing t f.in_if v.out_if) in
        elim (Bool-cases ((v.out_if == "") || (v.out_if == f.in_if))) [
          | inl lost ↦ absurd (
              not_dropped (classify netip t f) "no-ruleset" v
                (classify-routed miss ∙ ap routes lost) h)
          | inr on ↦
              let e = classify-routed miss ∙ ap routes on in
              subst Permits (sym e) (
                forward-Permits v (governing t f.in_if v.out_if)
                  (ap (λ (x : Verdict). x.action) (sym e) ∙ h) refl refl)
        ]
  ]
