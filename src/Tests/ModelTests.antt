-- ===== src/Tests/ModelTests.antt =====
-- Runs of tree.go's operations, and its theorems at the sample configuration.
use songbird_prototypes.Prelude.{
  String, ◌≡◌, refl, ◌≢◌, none, some, [], ◌∷◌, map, arith, All, ne_of_test, digit, digits, decimal,
}
use mathlib.Core.List.{Memᴰ}
use songbird_prototypes.Tests.Samples.{sample, sample_with_dns, web, mail, dns, named, object}
use songbird_prototypes.Model.Ports.{marshal, unmarshal, port_text, text}
use songbird_prototypes.Model.Ports.RoundTrip.{unmarshal-marshal}
use songbird_prototypes.Model.Types.{Rule}
use songbird_prototypes.Model.Objects.{find, put}
use songbird_prototypes.Model.Tree.{
  Tree, KindName, Doc, header, list_kind, objects, with_objects, as_object, file_path,
}
use songbird_prototypes.Model.Edits
use songbird_prototypes.Model.Edits.Views.{TreeIsUnique, get-put, edits-TreeIsUnique}
use songbird_prototypes.Model.Lookups.{expand_addresses, members, address_named}
use songbird_prototypes.Model.Lookups.Expansion.{expand_addresses_iff}
use songbird_prototypes.Model.Walk.Reaches.{Reaches}
use songbird_prototypes.Model.Uuids.{assign_uuids, old_uuid}
use songbird_prototypes.Model.Uuids.Stable.{assign_uuids_stable, rules_of, without_uuid}

file_path_test : file_path "Address" "web" ≡ "objects/addresses/web.yaml"
unfolding file_path
file_path_test = refl

-- A cycle of groups is cut.
expand_test : expand_addresses sample "all" ≡ web ∷ mail ∷ []
unfolding expand_addresses find
expand_test = refl

sample-TreeIsUnique : TreeIsUnique sample
unfolding objects
sample-TreeIsUnique KindName.system = tt
sample-TreeIsUnique _ = ground arith

put_test : Edits.put sample (Doc.address_doc dns) ≡ some sample_with_dns
unfolding Edits.put list_kind header as_object with_objects objects put
put_test = refl

get-put_example : Edits.get sample_with_dns "Address" "dns" ≡ some (Doc.address_doc dns)
unfolding header
get-put_example = get-put sample sample_with_dns (Doc.address_doc dns) "Address" "dns" put_test

edits-TreeIsUnique_example :
    ((d : Doc) (t' : Tree) → Edits.put sample d ≡ some t' → TreeIsUnique t')
    × ((kind name : String) → TreeIsUnique (Edits.delete sample kind name).0)
edits-TreeIsUnique_example = edits-TreeIsUnique sample sample-TreeIsUnique

expand_addresses_iff_example :
    (Memᴰ mail (expand_addresses sample "all")
      → Reaches (address_named sample) (members sample.address_groups) mail "all")
    × (Reaches (address_named sample) (members sample.address_groups) mail "all"
        → Memᴰ mail (expand_addresses sample "all"))
expand_addresses_iff_example = expand_addresses_iff sample "all" mail

abbrev rule : String → String → Rule
rule n u = record {
  name = n;
  uuid = u;
  comment = "";
  enabled = none;
  source = "any" ∷ [];
  destination = "any" ∷ [];
  service = "any" ∷ [];
  action = "accept";
  log = "";
  nat = none;
  schedule = "";
}

-- The previous version of a RuleSet has a uuid, and so has its first rule.
abbrev saved : Doc
saved = Doc.rule_set_doc (record {
  api_version = "";
  kind = "RuleSet";
  metadata = record (named "lan-wan") { uuid = "u1" };
  spec = record { from = "lan"; to = "wan"; rules = rule "web" "u2" ∷ [] };
})

abbrev edited : Doc
edited = Doc.rule_set_doc (
    object "RuleSet" "lan-wan"
      (record { from = "lan"; to = "wan"; rules = rule "mail" "" ∷ rule "web" "" ∷ [] }))

assign_test :
    map (λ r. r.uuid) (rules_of (assign_uuids (λ k. "fresh") edited (some saved) 0).0)
    ≡ "fresh" ∷ "u2" ∷ []
unfolding assign_uuids old_uuid
assign_test = refl

assign_uuids_stable_example :
    let d = (assign_uuids (λ k. "fresh") edited (some saved) 0).0 in
    ((header d).1.uuid ≡ "u1")
    × All
        (λ r.
          (r.uuid ≢ "")
          × (old_uuid (rules_of saved) r.name ≢ "" → r.uuid ≡ old_uuid (rules_of saved) r.name))
        (rules_of d)
    × (map (without_uuid (λ k. "fresh")) (rules_of d)
        ≡ map (without_uuid (λ k. "fresh")) (rules_of edited))
unfolding header
assign_uuids_stable_example =
    assign_uuids_stable (λ k. "fresh") (λ k. ne_of_test "fresh" "" refl) edited saved 0 tt
      (ne_of_test "u1" "" refl)

unmarshal-marshal_example :
    unmarshal (marshal (record { lo = 10000; hi = 20000 }))
    ≡ some (record { lo = 10000; hi = 20000 })
unmarshal-marshal_example =
    unmarshal-marshal (record { lo = 10000; hi = 20000 }) (omega arith) (omega arith)

-- The text of the schema's example.
port_text_run : marshal (record { lo = 10000; hi = 20000 }) ≡ text "10000-20000"
unfolding marshal port_text decimal digits digit
port_text_run = refl
