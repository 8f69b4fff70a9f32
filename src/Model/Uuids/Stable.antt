-- ===== src/Model/Uuids/Stable.antt =====
-- tree.go, `AssignUUIDs`: a uuid never changes once assigned (schema design decision 1), and after
-- the assignment none is missing.
use songbird_prototypes.Prelude.{
  ℕ, String, ◌≡◌, refl, ap, ◌≢◌, inl, inr, some, List, [], ◌∷◌, map, arith, ◌==◌, eq_iff,
  Bool-cases, All, ne_of_test,
}
use songbird_prototypes.Model.Types.{Rule}
use songbird_prototypes.Model.Tree.{Doc, header}
use songbird_prototypes.Model.Uuids.{
  doc_with_uuid, old_uuid, keep_uuid, keep_rules, set_uuid, assign_uuids,
}

-- The rules of a RuleSet; no other object has rules.
abbrev pub rules_of : Doc → List Rule
rules_of (Doc.rule_set_doc x) = x.spec.rules
rules_of _ = []

-- The previous version has the type of the object, if that is a RuleSet.
abbrev pub SameType : Doc → Doc → Type 0
SameType (Doc.rule_set_doc x) (Doc.rule_set_doc p) = Unit
SameType (Doc.rule_set_doc x) p = ⊥
SameType d p = Unit

uuid-doc_with_uuid : (u : String) (d : Doc) → (header (doc_with_uuid u d)).1.uuid ≡ u
unfolding header doc_with_uuid
uuid-doc_with_uuid u (Doc.system_doc o) = refl
uuid-doc_with_uuid u d = refl

rules_of-doc_with_uuid : (u : String) (d : Doc) → rules_of (doc_with_uuid u d) ≡ rules_of d
unfolding doc_with_uuid
rules_of-doc_with_uuid u (Doc.system_doc o) = refl
rules_of-doc_with_uuid u d = refl

module _ (new_uuid : ℕ → String) where
  keep_uuid-prev :
      (cur prev : String) (n : ℕ) → prev ≢ "" → keep_uuid new_uuid cur prev n ≡ (prev, n)
  unfolding keep_uuid
  keep_uuid-prev cur prev n h = ground (arith, eq_iff prev "")

  set_uuid-prev :
      (d p : Doc) (n : ℕ)
      → (header p).1.uuid ≢ ""
      → (header (set_uuid new_uuid d (some p) n).0).1.uuid ≡ (header p).1.uuid
  unfolding set_uuid
  set_uuid-prev d p n h =
      rw (keep_uuid-prev (header d).1.uuid (header p).1.uuid n h)
        (uuid-doc_with_uuid (header p).1.uuid d)

  -- The uuid of the previous version is kept.
  assign_uuids-uuid :
      (d p : Doc) (n : ℕ)
      → SameType d p
      → (header p).1.uuid ≢ ""
      → (header (assign_uuids new_uuid d (some p) n).0).1.uuid ≡ (header p).1.uuid
  unfolding assign_uuids header
  assign_uuids-uuid (Doc.rule_set_doc x) (Doc.rule_set_doc p) n st h =
      ground (arith, eq_iff p.metadata.uuid "")
  assign_uuids-uuid (Doc.rule_set_doc x) p n st h = absurd st
  assign_uuids-uuid d p n st h = set_uuid-prev d p n h

  -- What a rule carries beside its uuid.
  abbrev pub without_uuid : Rule → Rule
  without_uuid r = record r { uuid = "" }

  module _ (supply : (k : ℕ) → new_uuid k ≢ "") where
    keep_uuid-ne : (cur prev : String) (n : ℕ) → (keep_uuid new_uuid cur prev n).0 ≢ ""
    unfolding keep_uuid
    keep_uuid-ne cur prev n = elim (Bool-cases (prev == "")) [
      | inr p ↦ rw (p, keep_uuid) (ne_of_test prev "" p)
      | inl p ↦ elim (Bool-cases (cur == "")) [
        | inr c ↦ rw (p, c, keep_uuid) (ne_of_test cur "" c)
        | inl c ↦ rw (p, c, keep_uuid) (supply n)
      ]
    ]

    keep_rules-uuids :
        (old : String → String) (rs : List Rule) (n : ℕ)
        → All
            (λ r. (r.uuid ≢ "") × (old r.name ≢ "" → r.uuid ≡ old r.name))
            (keep_rules new_uuid old rs n).0
    unfolding keep_rules
    keep_rules-uuids old [] n = tt
    keep_rules-uuids old (r ∷ rs) n = (
      (
        keep_uuid-ne r.uuid (old r.name) n,
        λ h. ap (λ x. x.0) (keep_uuid-prev r.uuid (old r.name) n h),
      ),
      keep_rules-uuids old rs (keep_uuid new_uuid r.uuid (old r.name) n).1,
    )

  keep_rules-without_uuid :
      (old : String → String) (rs : List Rule) (n : ℕ)
      → map without_uuid (keep_rules new_uuid old rs n).0 ≡ map without_uuid rs
  unfolding keep_rules
  keep_rules-without_uuid old [] n = refl
  keep_rules-without_uuid old (r ∷ rs) n =
      ap (λ l. without_uuid r ∷ l)
        (keep_rules-without_uuid old rs (keep_uuid new_uuid r.uuid (old r.name) n).1)

  -- Saving an object over a previous version of its type that has a uuid keeps that uuid. Every rule
  -- of the result has a uuid, which is that of the previous version's rule of its name, where that has
  -- one. Nothing else of the rules changes. The random generator never gives the empty text.
  pub assign_uuids_stable :
      (supply : (k : ℕ) → new_uuid k ≢ "") (d p : Doc) (n : ℕ)
      → SameType d p
      → (header p).1.uuid ≢ ""
      → ((header (assign_uuids new_uuid d (some p) n).0).1.uuid ≡ (header p).1.uuid)
        × All
            (λ r.
              (r.uuid ≢ "")
              × (old_uuid (rules_of p) r.name ≢ "" → r.uuid ≡ old_uuid (rules_of p) r.name))
            (rules_of (assign_uuids new_uuid d (some p) n).0)
        × (map without_uuid (rules_of (assign_uuids new_uuid d (some p) n).0)
            ≡ map without_uuid (rules_of d))
  unfolding assign_uuids doc_with_uuid
  assign_uuids_stable supply (Doc.rule_set_doc x) (Doc.rule_set_doc p) n st h =
      let n' = (keep_uuid new_uuid x.metadata.uuid p.metadata.uuid n).1 in
      (
        assign_uuids-uuid (Doc.rule_set_doc x) (Doc.rule_set_doc p) n st h,
        keep_rules-uuids supply (old_uuid p.spec.rules) x.spec.rules n',
        keep_rules-without_uuid (old_uuid p.spec.rules) x.spec.rules n',
      )
  assign_uuids_stable supply (Doc.rule_set_doc x) p n st h = absurd st
  assign_uuids_stable supply d p n st h = (assign_uuids-uuid d p n st h, tt, refl)
