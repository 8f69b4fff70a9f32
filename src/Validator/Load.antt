-- ===== src/Validator/Load.antt =====
-- PoC-webui-v2/internal/validator/load.go: reading the documents of a file, and the findings at the places
-- where they were read. A document is what the YAML library and JSON Schema give of it.
use songbird_prototypes.Prelude.{
  ℕ, String, ◌⊎◌, inl, inr, Option, none, some, List, [], ◌∷◌, ◌++◌, map, ◌==◌, if◌then◌else◌,
  is_empty, lookup, concat, decimal,
}
use songbird_prototypes.Model.Tree.{Tree, Doc, header, file_path}
use songbird_prototypes.Model.Edits.{each}
use songbird_prototypes.Validator.Errors.{Error}
use songbird_prototypes.Validator.Run.{Issue}

-- `issues` are those of its value, `line_of` is `LineOf` of its node, `put` is `PutYAML` of its data.
pub record Document : Type 0 where
  pub kind : String
  pub name : String
  pub line : ℕ
  pub issues : List Issue
  pub line_of : String → ℕ
  pub put : Tree → String ⊎ Tree

pub record Source : Type 0 where
  pub file : String
  pub doc : Document

abbrev pub Sources : Type 0
Sources = List (String × Source)

pub record Parsed : Type 0 where
  pub tree : Tree
  pub sources : Sources
  pub errors : List Error

unfoldable pub key_of : Document → String
key_of d = concat (d.kind ∷ "/" ∷ d.name ∷ [])

-- The finding `where` of the loop, with its reason.
abbrev pub finding : String → Document → String → Error
finding file d reason = record {
  file = file;
  line = d.line;
  path = "";
  reason = reason;
  rule = "schema";
  constraint = "C-005";
  severity = "error";
}

unfoldable pub schema_errors : String → Document → List Issue → List Error
schema_errors file d [] = []
schema_errors file d (is ∷ rest) =
    record (finding file d is.reason) { path = is.path; line = d.line_of is.path }
    ∷ schema_errors file d rest

unfoldable pub defined_twice : String → Document → Source → Error
defined_twice file d prev =
    let reason =
      concat
        (key_of d ∷ " is already defined in " ∷ prev.file ∷ ":" ∷ decimal prev.doc.line ∷ []) in
    record (finding file d reason) {
      path = "metadata.name";
      rule = "unique-name";
      constraint = "DM-01";
    }

parsed_doc : String → Document → Sources → String ⊎ Tree → Tree → Parsed
unfolding key_of
parsed_doc file d src (inl e) t = record { tree = t; sources = src; errors = finding file d e ∷ [] }
parsed_doc file d src (inr t') t = record {
  tree = t';
  sources = (key_of d, record { file = file; doc = d }) ∷ src;
  errors = [];
}

new_doc : String → Document → Option Source → Sources → Tree → Parsed
unfolding parsed_doc
new_doc file d (some prev) src t = record {
  tree = t;
  sources = src;
  errors = defined_twice file d prev ∷ [];
}
new_doc file d none src t = parsed_doc file d src (d.put t) t

unfoldable pub parse_doc : String → Document → Sources → Tree → Parsed
unfolding new_doc
parse_doc file d src t =
    if is_empty d.issues
    then new_doc file d (lookup (key_of d) src) src t
    else record { tree = t; sources = src; errors = schema_errors file d d.issues }

-- The documents of one file. Those with an error are left out.
unfoldable pub parse_docs : String → List Document → Sources → Tree → Parsed
parse_docs file [] src t = record { tree = t; sources = src; errors = [] }
parse_docs file (d ∷ ds) src t =
    let p = parse_doc file d src t in
    let rest = parse_docs file ds p.sources p.tree in
    record rest { errors = p.errors ++ rest.errors }

-- `ParseDocs`: a file that is no YAML has one finding.
unfoldable pub parse_file : String → String ⊎ List Document → Sources → Tree → Parsed
parse_file file (inl e) src t = record {
  tree = t;
  sources = src;
  errors =
      record {
        file = file;
        line = 0;
        path = "";
        reason = e;
        rule = "yaml";
        constraint = "";
        severity = "error";
      }
      ∷ [];
}
parse_file file (inr ds) src t = parse_docs file ds src t

-- The entry of a file in the map `byFile`: the last object of the file that was read from a source.
unfoldable pub source_of : Sources → List Doc → String → Option Source
source_of src [] file = none
source_of src (o ∷ os) file =
    let rest = source_of src os file in
    let (kind, meta) = header o in
    elim rest [
      | some s ↦ some s
      | none ↦
          if file_path kind meta.name == file
          then lookup (concat (kind ∷ "/" ∷ meta.name ∷ [])) src
          else none
    ]

placed : Option Source → Error → Error
placed none e = e
placed (some s) e = record e { file = s.file; line = s.doc.line_of e.path }

unfoldable pub relocate : List Error → Tree → Sources → List Error
unfolding placed source_of
relocate errs t src = map (λ e. placed (source_of src (each t) e.file) e) errs
