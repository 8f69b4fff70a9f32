-- ===== src/Configstore.antt =====
-- PoC-webui-v2/internal/configstore/store.go: the Config Manager. Git and the file system are a record of
-- functions on a repository; a function that fails gives the text of its error. The lock makes each
-- operation one step. The time of a commit and the raw files are left to Git.
pub mod Locking
pub mod Effects
use songbird_prototypes.Prelude.{
  ℕ, zero, suc, String, ◌⊎◌, inl, inr, Bool, true, false, ◌||◌, not, Option, none, some, List, [],
  ◌∷◌, ◌++◌, map, ◌==◌, if◌then◌else◌, length, lookup, concat, quoted, decimal,
}
use songbird_prototypes.Model.Tree.{Tree, Doc, empty_tree, file_path, Kind, kind_by_name}
use songbird_prototypes.Model.Edits.{sort}

pub record Author : Type 0 where
  pub name : String
  pub source : String

-- Replaces one object, or deletes it where `obj` is none.
pub record Change : Type 0 where
  pub kind : String
  pub name : String
  pub obj : Option Doc

-- The errors of an Update. `conflict` is a ConflictError, with the file and HEAD;
-- `rejected` the error of the function that makes the changes.
pub data Failure (E : Type 0) : Type 0 where
  failed : String → Failure E
  rejected : E → Failure E
  no_change : Failure E
  conflict : String → String → Failure E

-- One document of a file, and how it is put into a tree (`PutYAML`).
pub record RawDoc : Type 0 where
  pub kind : String
  pub name : String
  pub put : Tree → String ⊎ Tree

-- What Git and the file system do for the program. `files` lists the YAML files of a commit with their
-- contents, `split` reads a file's documents; `stage` is `git add -A`; `porcelain` is the trimmed output
-- of `git status`, `touched` that of `git diff --name-only`.
pub record Git (R : Type 0) : Type 0 where
  pub rev_parse : R → String → String ⊎ String
  pub files : R → String → String ⊎ List (String × String)
  pub split : String → String ⊎ List RawDoc
  pub touched : R → String → String → String → String ⊎ String
  pub write_file : String → Doc → R → String ⊎ R
  pub remove_file : String → R → String ⊎ R
  pub checkout : R → R
  pub stage : R → String ⊎ R
  pub porcelain : R → String
  pub commit : String → String → R → String ⊎ R
  pub reset_to : String → R → String ⊎ R

-- A channel holds one commit, or none.
pub record Store (R : Type 0) : Type 0 where
  pub repo : R
  pub subs : List (Option String)
  pub cache : List (String × Tree)

-- The channel is coalesced: a full one keeps what it has.
unfoldable pub send : String → Option String → Option String
send id none = some id
send id (some old) = some old

first_codes : ℕ → String → String
first_codes zero s = ""
first_codes (suc n) String.[] = ""
first_codes (suc n) (String.◌∷◌ c s) = String.◌∷◌ c (first_codes n s)

-- The first eight characters of a commit's name.
unfoldable pub short : String → String
unfolding first_codes
short id = first_codes 8 id

abbrev pub is_known : Option Kind → Bool
is_known none = false
is_known (some k) = true

module _ {R : Type 0} (git : Git R) where
  unfoldable pub notify : String → Store R → Store R
  notify id s = record s { subs = map (send id) s.subs }

  -- A new channel, at the end of the list.
  unfoldable pub subscribe : Store R → Store R
  subscribe s = record s { subs = s.subs ++ none ∷ [] }

  put_doc : String → RawDoc → Tree → String ⊎ Tree
  put_doc path d t =
      if not (is_known (kind_by_name d.kind))
      then inl (concat (path ∷ ": unknown kind " ∷ quoted d.kind ∷ []))
      else if not (file_path d.kind d.name == path)
      then inl (
          concat (
            path
            ∷ ": "
            ∷ d.kind
            ∷ "/"
            ∷ d.name
            ∷ " must be stored in "
            ∷ file_path d.kind d.name
            ∷ []))
      else d.put t

  put_docs : String → String ⊎ List RawDoc → Tree → String ⊎ Tree
  unfolding put_doc
  put_docs path (inl e) t = inl (concat (path ∷ ": " ∷ e ∷ []))
  put_docs path (inr (d ∷ [])) t = put_doc path d t
  put_docs path (inr ds) t =
      inl (concat (path ∷ ": expected one object per file, found " ∷ decimal (length ds) ∷ []))

  load_more : (Tree → String ⊎ Tree) → String ⊎ Tree → String ⊎ Tree
  load_more rest (inl e) = inl e
  load_more rest (inr t) = rest t

  -- The files of a commit, one object each.
  unfoldable pub load : List (String × String) → Tree → String ⊎ Tree
  unfolding load_more put_docs
  load [] t = inr (sort t)
  load ((path, text) ∷ fs) t = load_more (load fs) (put_docs path (git.split text) t)

  loaded : String → String ⊎ Tree → Store R → (String ⊎ Tree × String) × Store R
  loaded id (inl e) s = (inl e, s)
  loaded id (inr t) s = (inr (t, id), record s { cache = (id, t) ∷ s.cache })

  load_files :
      String → String ⊎ List (String × String) → Store R → (String ⊎ Tree × String) × Store R
  unfolding load loaded
  load_files id (inl e) s = (inl e, s)
  load_files id (inr fs) s = loaded id (load fs empty_tree) s

  read_id : Option Tree → String → Store R → (String ⊎ Tree × String) × Store R
  unfolding load_files
  read_id (some t) id s = (inr (t, id), s)
  read_id none id s = load_files id (git.files s.repo id) s

  read_at : String ⊎ String → Store R → (String ⊎ Tree × String) × Store R
  unfolding read_id
  read_at (inl e) s = (inl e, s)
  read_at (inr id) s = read_id (lookup id s.cache) id s

  -- The configuration at a revision, and its commit. Trees are values: a clone is the tree.
  unfoldable pub read : String → Store R → (String ⊎ Tree × String) × Store R
  unfolding read_at
  read rev s = read_at (git.rev_parse s.repo rev) s

  write_object : String → Option Doc → R → String ⊎ R
  write_object f none repo = git.remove_file f repo
  write_object f (some o) repo = git.write_file f o repo

  -- What is written before a failure stays: the repository is part of the result.
  write_next : R → String ⊎ R → (R → Option String × R) → Option String × R
  write_next repo (inl e) rest = (some e, repo)
  write_next repo (inr repo') rest = rest repo'

  unfoldable pub write : List Change → R → Option String × R
  unfolding write_object write_next
  write [] repo = (none, repo)
  write (c ∷ cs) repo =
      write_next repo (write_object (file_path c.kind c.name) c.obj repo) (write cs)

module _ {R E : Type 0} (git : Git R) where
  unfoldable pub touched_file :
      String → String → String → String ⊎ String → Option (Failure E) → Option (Failure E)
  touched_file base head f (inl e) rest =
      some (failed (concat ("unknown base revision " ∷ short base ∷ [])))
  touched_file base head f (inr out) rest = if out == "" then rest else some (conflict f head)

  -- The first change whose file another commit touched since the base, or an unknown base.
  unfoldable pub conflict_in : String → String → R → List Change → Option (Failure E)
  conflict_in base head repo [] = none
  conflict_in base head repo (c ∷ cs) =
      let f = file_path c.kind c.name in
      touched_file base head f (git.touched repo base head f) (conflict_in base head repo cs)

  head_of : String ⊎ String → Store R → (Failure E ⊎ String) × Store R
  head_of (inl e) s = (inl (failed e), s)
  head_of (inr id) s = (inr id, notify git id s)

  committed : String ⊎ R → Store R → (Failure E ⊎ String) × Store R
  unfolding head_of
  committed (inl e) s = (inl (failed e), s)
  committed (inr repo) s = head_of (git.rev_parse repo "HEAD") (record s { repo = repo })

  staged : Author → String → String ⊎ R → Store R → (Failure E ⊎ String) × Store R
  unfolding committed
  staged a msg (inl e) s = (inl (failed e), s)
  staged a msg (inr repo) s =
      let s' = record s { repo = repo } in
      if git.porcelain repo == ""
      then (inl no_change, s')
      else committed
          (git.commit (concat (a.name ∷ " <" ∷ a.name ∷ "@songbird.local>" ∷ []))
            (concat (msg ∷ "\n\nActor: " ∷ a.name ∷ "\nSource: " ∷ a.source ∷ "\n" ∷ [])) repo)
          s'

  unfoldable pub commit : Author → String → Store R → (Failure E ⊎ String) × Store R
  unfolding staged
  commit a msg s = staged a msg (git.stage s.repo) s

  finish_write : Author → String → Option String × R → Store R → (Failure E ⊎ String) × Store R
  finish_write a msg (some e, repo) s = (inl (failed e), record s { repo = git.checkout repo })
  finish_write a msg (none, repo) s = commit a msg (record s { repo = repo })

  unless_conflict :
      Author → String → List Change → Option (Failure E) → Store R → (Failure E ⊎ String) × Store R
  unfolding finish_write
  unless_conflict a msg cs (some e) s = (inl e, s)
  unless_conflict a msg cs none s = finish_write a msg (write git cs s.repo) s

  -- The check of the base is skipped where there is none, or it is HEAD.
  unfoldable pub conflict_of : String → String → R → List Change → Option (Failure E)
  conflict_of base head repo cs =
      if (base == "") || (base == head) then none else conflict_in base head repo cs

  changed :
      String → Author → String → String → E ⊎ List Change → Store R → (Failure E ⊎ String) × Store R
  unfolding unless_conflict
  changed base a msg head (inl e) s = (inl (rejected e), s)
  changed base a msg head (inr cs) s = unless_conflict a msg cs (conflict_of base head s.repo cs) s

  updated :
      String
      → Author
      → String
      → (Tree → E ⊎ List Change)
      → (String ⊎ Tree × String) × Store R
      → (Failure E ⊎ String) × Store R
  unfolding changed
  updated base a msg fn (inl e, s) = (inl (failed e), s)
  updated base a msg fn (inr (t, head), s) = changed base a msg head (fn t) s

  unfoldable pub update :
      String → Author → String → (Tree → E ⊎ List Change) → Store R → (Failure E ⊎ String) × Store R
  unfolding updated
  update base a msg fn s = updated base a msg fn (read git "HEAD" s)

  reverted : Author → String → String ⊎ R → Store R → (Failure E ⊎ String) × Store R
  reverted a id (inl e) s = (inl (failed e), s)
  reverted a id (inr repo) s =
      commit a (concat ("revert to " ∷ short id ∷ [])) (record s { repo = repo })

  revert_to : Author → String → String ⊎ String → Store R → (Failure E ⊎ String) × Store R
  unfolding reverted
  revert_to a rev (inl e) s = (inl (failed (concat ("unknown revision " ∷ short rev ∷ []))), s)
  revert_to a rev (inr id) s = reverted a id (git.reset_to id s.repo) s

  -- A new commit whose tree equals that of a revision.
  unfoldable pub revert : String → Author → Store R → (Failure E ⊎ String) × Store R
  unfolding revert_to
  revert rev a s = revert_to a rev (git.rev_parse s.repo rev) s
