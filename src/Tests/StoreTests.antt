-- ===== src/Tests/StoreTests.antt =====
-- Runs of the Config Manager over a toy repository, its commits as a list of names, and of the changes
-- of the HTTP API.
use songbird_prototypes.Prelude.{
  String, ◌≡◌, refl, ◌⊎◌, inl, inr, Bool, true, false, none, some, List, [], ◌∷◌, ◌==◌,
  if◌then◌else◌, All,
}
use songbird_prototypes.Model.Tree.{Tree, zone_doc, file_path}
use songbird_prototypes.Configstore.{
  conflict_of, conflict_in, touched_file, write, commit, send, notify, load, Git, Store, Author,
  Change, conflict, read, update,
}
use songbird_prototypes.Configstore.Locking.{Landed, update-Landed}
use songbird_prototypes.Configstore.Effects.{update_outcome, is_full}
use songbird_prototypes.Tests.Samples.{zone}

-- A repository without files: its commits, the last first, and whether the next `git diff` finds a
-- change.
pub record Repo : Type 0 where
  pub commits : List String
  pub differs : Bool

abbrev first : List String → String
first [] = ""
first (c ∷ cs) = c

abbrev pub git : Git Repo
git = record {
  rev_parse = λ r rev. if rev == "HEAD" then inr (first r.commits) else inr rev;
  files = λ r id. inr [];
  split = λ text. inr [];
  touched = λ r base head f. inr (if r.differs then f else "");
  write_file = λ f o r. inr r;
  remove_file = λ f r. inr r;
  checkout = λ r. r;
  stage = λ r. inr r;
  porcelain = λ r. "M network/zones/lan.yaml";
  commit = λ author msg r. inr (record r { commits = "next" ∷ r.commits });
  reset_to = λ id r. inr r;
}

abbrev pub stored : Bool → Store Repo
stored b = record {
  repo = record { commits = "c2" ∷ "c1" ∷ []; differs = b };
  subs = none ∷ some "c2" ∷ [];
  cache = [];
}

abbrev pub ann : Author
ann = record { name = "ann"; source = "192.0.2.9" }

abbrev add_zone : Tree → String ⊎ List Change
add_zone t =
    inr (
      record { kind = "Zone"; name = "lan"; obj = some (zone_doc (zone "lan" ("eth1" ∷ []))) } ∷ [])

-- The configuration of HEAD is empty; a later commit has touched the file, or not.
landed : (update git "c1" ann "add" add_zone (stored false)).0 ≡ inr "next"
unfolding update read conflict_of conflict_in touched_file write commit send notify load
landed = refl

conflicting :
    (update git "c1" ann "add" add_zone (stored true)).0
    ≡ inl (conflict "network/zones/lan.yaml" "c2")
unfolding update read conflict_of conflict_in touched_file write commit load file_path
conflicting = refl

update-Landed_example :
    Landed git "c1" ann "add" add_zone
      (stored false)
      (update git "c1" ann "add" add_zone (stored false)).1
      "next"
update-Landed_example = update-Landed git "c1" ann "add" add_zone (stored false) "next" landed

update_outcome_example :
    let (r, s') = update git "c1" ann "add" add_zone (stored true) in
    ((f head : String)
      → r ≡ inl (conflict f head)
      → (s'.repo ≡ (stored true).repo) × (s'.subs ≡ (stored true).subs))
    × ((id : String) → r ≡ inr id → All (λ c. is_full c ≡ true) s'.subs)
update_outcome_example = update_outcome git "c1" ann "add" add_zone (stored true)
