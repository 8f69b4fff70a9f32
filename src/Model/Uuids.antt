-- ===== src/Model/Uuids.antt =====
-- PoC-webui-v2/internal/model/tree.go, `AssignUUIDs`. `new_uuid n` is the result of the n-th call of
-- `NewUUID`, which reads the random generator, and the state is the number of calls made.
pub mod Stable
use songbird_prototypes.Prelude.{
  ℕ, suc, String, not, Option, none, some, List, [], ◌∷◌, ◌==◌, if◌then◌else◌, any,
}
use songbird_prototypes.Model.Types.{Object, Rule, RuleSetSpec}
use songbird_prototypes.Model.Tree.{Doc, header}

abbrev pub M : Type 0 → Type 0
M A = ℕ → A × ℕ

abbrev with_uuid {ℓ} : {S : Type ℓ} → String → Object S → Object S
with_uuid u o = record o { metadata = record o.metadata { uuid = u } }

-- The assignment `x.Metadata.UUID = …` in each case of the switch of `setUUID`.
unfoldable pub doc_with_uuid : String → Doc → Doc
doc_with_uuid u (Doc.system_doc o) = Doc.system_doc (with_uuid u o)
doc_with_uuid u (Doc.color_doc o) = Doc.color_doc (with_uuid u o)
doc_with_uuid u (Doc.interface_doc o) = Doc.interface_doc (with_uuid u o)
doc_with_uuid u (Doc.zone_doc o) = Doc.zone_doc (with_uuid u o)
doc_with_uuid u (Doc.static_route_doc o) = Doc.static_route_doc (with_uuid u o)
doc_with_uuid u (Doc.dhcp_server_doc o) = Doc.dhcp_server_doc (with_uuid u o)
doc_with_uuid u (Doc.address_doc o) = Doc.address_doc (with_uuid u o)
doc_with_uuid u (Doc.group_doc o) = Doc.group_doc (with_uuid u o)
doc_with_uuid u (Doc.service_doc o) = Doc.service_doc (with_uuid u o)
doc_with_uuid u (Doc.rule_set_doc o) = Doc.rule_set_doc (with_uuid u o)
doc_with_uuid u (Doc.user_doc o) = Doc.user_doc (with_uuid u o)

-- The map `old`, from the name of a rule to its uuid: a later rule overwrites an earlier one.
-- A missing key reads "".
unfoldable pub old_uuid : List Rule → String → String
old_uuid [] n = ""
old_uuid (r ∷ rs) n =
    let rest = old_uuid rs n in
    if any (λ q. q.name == n) rs then rest else if r.name == n then r.uuid else ""

module _ (new_uuid : ℕ → String) where
  unfoldable pub keep_uuid : String → String → M String
  keep_uuid cur prev n =
      if not (prev == "")
      then (prev, n)
      else if not (cur == "")
      then (cur, n)
      else (new_uuid n, suc n)

  keep_rules : (String → String) → List Rule → M (List Rule)
  keep_rules old [] n = ([], n)
  keep_rules old (r ∷ rs) n =
      let (u, n') = keep_uuid r.uuid (old r.name) n in
      let (rest, n'') = keep_rules old rs n' in (record r { uuid = u } ∷ rest, n'')

  -- The uuid and the old rule uuids of a RuleSet, from the previous version if that is a RuleSet.
  rule_set_uuids : Object RuleSetSpec → Option Doc → ℕ → (String × ℕ) × (String → String)
  rule_set_uuids x (some (Doc.rule_set_doc p)) n =
      (keep_uuid x.metadata.uuid p.metadata.uuid n, old_uuid p.spec.rules)
  rule_set_uuids x _ n =
      (if x.metadata.uuid == "" then (new_uuid n, suc n) else (x.metadata.uuid, n), λ name. "")

  prev_uuid : Option Doc → String
  prev_uuid none = ""
  prev_uuid (some p) = (header p).1.uuid

  assign_rule_set : Object RuleSetSpec → Option Doc → M Doc
  unfolding keep_rules rule_set_uuids keep_uuid
  assign_rule_set x prev n =
      let ((u, n'), old) = rule_set_uuids x prev n in
      let (rules, n'') = keep_rules old x.spec.rules n' in
      (Doc.rule_set_doc (record (with_uuid u x) { spec = record x.spec { rules = rules } }), n'')

  set_uuid : Doc → Option Doc → M Doc
  unfolding keep_uuid prev_uuid
  set_uuid o prev n =
      let (u, n') = keep_uuid (header o).1.uuid (prev_uuid prev) n in (doc_with_uuid u o, n')

  unfoldable pub assign_uuids : Doc → Option Doc → M Doc
  unfolding assign_rule_set set_uuid
  assign_uuids (Doc.rule_set_doc x) prev n = assign_rule_set x prev n
  assign_uuids (Doc.system_doc o) prev n = set_uuid (Doc.system_doc o) prev n
  assign_uuids o prev n = set_uuid o prev n
