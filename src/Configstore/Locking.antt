-- ===== src/Configstore/Locking.antt =====
-- store.go, `Update`: the optimistic locking. An update that succeeds lost no other one, and one that
-- meets a conflict wrote nothing.
use songbird_prototypes.Prelude.{
  String, ◌≡◌, refl, sym, ap, ◌∙◌, subst, ◌≢◌, ◌⊎◌, inl, inr, Option, none, some, List, [], ◌∷◌,
  arith, ◌==◌, eq_iff, Bool-cases, All, lookup, concat, ne_of_test,
}
use mathlib.Core.Option.{some-ne-none}
use mathlib.Core.Sum.{inr-injective, inl-ne-inr}
use songbird_prototypes.Model.Tree.{Doc, Tree, file_path}
use songbird_prototypes.Configstore.{
  Author, Change, Failure, Git, Store, read, read_at, read_id, load_files, loaded, touched_file,
  conflict_in, conflict_of, unless_conflict, changed, updated, update, write_object, write_next,
  write, head_of, committed, staged, finish_write, commit, notify,
}

module _ {R : Type 0} (git : Git R) where
  -- What reading leaves alone.
  abbrev Same : Store R → Store R → Type 0
  Same s s' = (s'.repo ≡ s.repo) × (s'.subs ≡ s.subs)

  loaded-Same : (id : String) (r : String ⊎ Tree) (s : Store R) → Same s (loaded git id r s).1
  unfolding loaded
  loaded-Same id (inl e) s = (refl, refl)
  loaded-Same id (inr t) s = (refl, refl)

  files-Same :
      (id : String) (r : String ⊎ List (String × String)) (s : Store R)
      → Same s (load_files git id r s).1
  unfolding load_files
  files-Same id (inl e) s = (refl, refl)
  files-Same id (inr fs) s = loaded-Same id _ s

  id-Same : (o : Option Tree) (id : String) (s : Store R) → Same s (read_id git o id s).1
  unfolding read_id
  id-Same (some t) id s = (refl, refl)
  id-Same none id s = files-Same id _ s

  at-Same : (r : String ⊎ String) (s : Store R) → Same s (read_at git r s).1
  unfolding read_at
  at-Same (inl e) s = (refl, refl)
  at-Same (inr id) s = id-Same (lookup id s.cache) id s

  pub read-Same : (rev : String) (s : Store R) → Same s (read git rev s).1
  unfolding read
  read-Same rev s = at-Same (git.rev_parse s.repo rev) s

  -- No other commit since the base has touched the file of a change.
  abbrev pub IsUntouched : String → String → R → Change → Type 0
  IsUntouched base head repo c = git.touched repo base head (file_path c.kind c.name) ≡ inr ""

  -- The changes went onto the version that their author had edited.
  pub IsCurrent : String → String → R → List Change → Type 0
  IsCurrent base head repo cs = (base ≡ "") ⊎ ((base ≡ head) ⊎ All (IsUntouched base head repo) cs)

module _ {R : Type 0} (git : Git R) where
  -- The changes, one after the other, in the working tree.
  pub data Writes : List Change → R → R → Type 0 where
    nothing : {r : R} → Writes [] r r
    remove :
        {c : Change} {cs : List Change} {r r' r'' : R}
        → c.obj ≡ none
        → git.remove_file (file_path c.kind c.name) r ≡ inr r'
        → Writes cs r' r''
        → Writes (c ∷ cs) r r''
    replace :
        {c : Change} {cs : List Change} {r r' r'' : R} {o : Doc}
        → c.obj ≡ some o
        → git.write_file (file_path c.kind c.name) o r ≡ inr r'
        → Writes cs r' r''
        → Writes (c ∷ cs) r r''

  next-Writes :
      (c : Change) (cs : List Change) (obj : Option Doc) (repo repo' : R) (r : String ⊎ R)
      → c.obj ≡ obj
      → write_object git (file_path c.kind c.name) obj repo ≡ r
      → ((mid : R) → write git cs mid ≡ (none, repo') → Writes cs mid repo')
      → write_next git repo r (write git cs) ≡ (none, repo')
      → Writes (c ∷ cs) repo repo'
  unfolding write_object write_next
  next-Writes c cs obj repo repo' (inl e) k w rest h = absurd (some-ne-none _ (ap (λ p. p.0) h))
  next-Writes c cs none repo repo' (inr mid) k w rest h = remove k w (rest mid h)
  next-Writes c cs (some o) repo repo' (inr mid) k w rest h = replace k w (rest mid h)

  write-Writes :
      (cs : List Change) (repo repo' : R) → write git cs repo ≡ (none, repo') → Writes cs repo repo'
  unfolding write
  write-Writes [] repo repo' h =
      subst (Writes [] repo) (ap (λ (p : Option String × R). p.1) h) nothing
  write-Writes (c ∷ cs) repo repo' h =
      next-Writes c cs c.obj repo repo' _ refl refl (λ mid k. write-Writes cs mid repo' k) h

  -- A working tree is staged, and what differs is committed under the name of its author, as `id`.
  pub record Stored (a : Author) (msg : String) (written : R) (s' : Store R) (id : String)
      : Type 0 where
    pub staged_tree : R
    pub stages : git.stage written ≡ inr staged_tree
    pub differs : git.porcelain staged_tree ≢ ""
    pub commits :
        git.commit
          (concat (a.name ∷ " <" ∷ a.name ∷ "@songbird.local>" ∷ []))
          (concat (msg ∷ "\n\nActor: " ∷ a.name ∷ "\nSource: " ∷ a.source ∷ "\n" ∷ []))
          staged_tree
        ≡ inr s'.repo
    pub named : git.rev_parse s'.repo "HEAD" ≡ inr id

  -- A write that succeeds, and its commit.
  record Wrote (a : Author) (msg : String) (cs : List Change) (repo : R) (s' : Store R)
      (id : String) : Type 0 where
    pub written : R
    pub writes : Writes cs repo written
    pub stored : Stored a msg written s' id

module _ {R E : Type 0} (git : Git R) where
  touched-none :
      (base head f : String) (r : String ⊎ String) (rest : Option (Failure E))
      → touched_file git base head f r rest ≡ none
      → (r ≡ inr "") × (rest ≡ none)
  unfolding touched_file
  touched-none base head f (inl e) rest h = cc
  touched-none base head f (inr out) rest h = elim (Bool-cases (out == "")) [
    | inl e ↦ (ap inr ((eq_iff out "").0 e), rw e at h)
    | inr e ↦ absurd (ground (arith, h, e))
  ]

  conflict_in-none :
      (base head : String) (repo : R) (cs : List Change)
      → conflict_in {E = E} git base head repo cs ≡ none
      → All (IsUntouched git base head repo) cs
  unfolding conflict_in
  conflict_in-none base head repo [] h = tt
  conflict_in-none base head repo (c ∷ cs) h =
      let (e, rest) =
        touched-none base head (file_path c.kind c.name)
          (git.touched repo base head (file_path c.kind c.name)) (conflict_in git base head repo cs)
          h in
      (e, conflict_in-none base head repo cs rest)

  conflict_of-none :
      (base head : String) (repo : R) (cs : List Change)
      → conflict_of {E = E} git base head repo cs ≡ none
      → IsCurrent git base head repo cs
  unfolding conflict_of IsCurrent
  conflict_of-none base head repo cs h = elim (Bool-cases (base == "")) [
    | inl e ↦ inl ((eq_iff base "").0 e)
    | inr e ↦ elim (Bool-cases (base == head)) [
      | inl k ↦ inr (inl ((eq_iff base head).0 k))
      | inr k ↦ inr (inr (conflict_in-none base head repo cs (rw (e, k) at h)))
    ]
  ]

  head_of-Named :
      (r : String ⊎ String) (s : Store R) (id : String)
      → (head_of {E = E} git r s).0 ≡ inr id
      → ((head_of {E = E} git r s).1.repo ≡ s.repo) × (r ≡ inr id)
  unfolding head_of notify
  head_of-Named (inl e) s id h = absurd (inl-ne-inr h)
  head_of-Named (inr x) s id h = (refl, ap inr (inr-injective _ _ h))

  committed-Named :
      (r : String ⊎ R) (s : Store R) (id : String)
      → (committed {E = E} git r s).0 ≡ inr id
      → (r ≡ inr (committed {E = E} git r s).1.repo)
        × (git.rev_parse (committed {E = E} git r s).1.repo "HEAD" ≡ inr id)
  unfolding committed
  committed-Named (inl e) s id h = absurd (inl-ne-inr h)
  committed-Named (inr repo) s id h =
      let (kept, name) =
        head_of-Named (git.rev_parse repo "HEAD") (record s { repo = repo }) id h in
      (ap inr (sym kept), ap (λ r. git.rev_parse r "HEAD") kept ∙ name)

  staged-Stored :
      (a : Author) (msg : String) (written : R) (r : String ⊎ R) (s : Store R) (id : String)
      → git.stage written ≡ r
      → (staged {E = E} git a msg r s).0 ≡ inr id
      → Stored git a msg written (staged {E = E} git a msg r s).1 id
  unfolding staged
  staged-Stored a msg written (inl e) s id k h = absurd (inl-ne-inr h)
  staged-Stored a msg written (inr repo) s id k h = elim (Bool-cases (git.porcelain repo == "")) [
    | inl e ↦ absurd (inl-ne-inr (rw e at h))
    | inr e ↦ rw e (
        let (commits, name) = committed-Named _ _ id (rw e at h) in
        record {
          staged_tree = repo;
          stages = k;
          differs = ne_of_test (git.porcelain repo) "" e;
          commits = commits;
          named = name;
        })
  ]

  finish-Wrote :
      (a : Author) (msg : String) (cs : List Change) (p : Option String × R) (s : Store R)
      (id : String)
      → write git cs s.repo ≡ p
      → (finish_write {E = E} git a msg p s).0 ≡ inr id
      → Wrote git a msg cs s.repo (finish_write {E = E} git a msg p s).1 id
  unfolding finish_write commit
  finish-Wrote a msg cs (some e, repo) s id k h = absurd (inl-ne-inr h)
  finish-Wrote a msg cs (none, repo) s id k h = record {
    written = repo;
    writes = write-Writes git cs s.repo repo k;
    stored = staged-Stored a msg repo (git.stage repo) (record s { repo = repo }) id refl h;
  }

  unless-Wrote :
      (base head : String) (a : Author) (msg : String) (cs : List Change) (o : Option (Failure E))
      (s : Store R) (id : String)
      → conflict_of git base head s.repo cs ≡ o
      → (unless_conflict git a msg cs o s).0 ≡ inr id
      → IsCurrent git base head s.repo cs
        × Wrote git a msg cs s.repo (unless_conflict git a msg cs o s).1 id
  unfolding unless_conflict
  unless-Wrote base head a msg cs (some e) s id h d = absurd (inl-ne-inr d)
  unless-Wrote base head a msg cs none s id h d = (
    conflict_of-none base head s.repo cs h,
    finish-Wrote a msg cs (write git cs s.repo) s id refl d,
  )

  -- What a successful update has read, the changes that it made, and the commit of them.
  pub record Landed (base : String) (a : Author) (msg : String) (fn : Tree → E ⊎ List Change)
      (s s' : Store R) (id : String) : Type 0 where
    pub tree : Tree
    pub head : String
    pub changes : List Change
    pub found : (read git "HEAD" s).0 ≡ inr (tree, head)
    pub made : fn tree ≡ inr changes
    pub current : IsCurrent git base head s.repo changes
    pub written : R
    pub writes : Writes git changes s.repo written
    pub stored : Stored git a msg written s' id

  changed-Landed :
      (base : String) (a : Author) (msg : String) (fn : Tree → E ⊎ List Change) (s s₁ : Store R)
      (id : String) (t : Tree) (head : String) (r : E ⊎ List Change)
      → (read git "HEAD" s).0 ≡ inr (t, head)
      → s₁.repo ≡ s.repo
      → fn t ≡ r
      → (changed git base a msg head r s₁).0 ≡ inr id
      → Landed base a msg fn s (changed git base a msg head r s₁).1 id
  unfolding changed
  changed-Landed base a msg fn s s₁ id t head (inl e) f k m d = absurd (inl-ne-inr d)
  changed-Landed base a msg fn s s₁ id t head (inr cs) f k m d =
      let (current, w) =
        unless-Wrote base head a msg cs (conflict_of git base head s₁.repo cs) s₁ id refl d in
      record {
        tree = t;
        head = head;
        changes = cs;
        found = f;
        made = m;
        current = subst (λ r. IsCurrent git base head r cs) k current;
        written = w.written;
        writes = subst (λ r. Writes git cs r w.written) k w.writes;
        stored = w.stored;
      }

  updated-Landed :
      (base : String) (a : Author) (msg : String) (fn : Tree → E ⊎ List Change) (s : Store R)
      (id : String) (p : (String ⊎ Tree × String) × Store R)
      → read git "HEAD" s ≡ p
      → p.1.repo ≡ s.repo
      → (updated git base a msg fn p).0 ≡ inr id
      → Landed base a msg fn s (updated git base a msg fn p).1 id
  unfolding updated
  updated-Landed base a msg fn s id (inl e, s₁) h k d = absurd (inl-ne-inr d)
  updated-Landed base a msg fn s id (inr (t, head), s₁) h k d =
      changed-Landed base a msg fn s s₁ id t head (fn t)
        (ap (λ (p : (String ⊎ Tree × String) × Store R). p.0) h) k refl d

  -- An update that succeeds has read HEAD, and the base that its author knew is none, or HEAD, or a
  -- revision since which no commit has touched a file of the changes that its function makes of HEAD.
  -- Each of these changes was written to the working tree, in their order, and the new HEAD, whose name
  -- is returned, is a commit of that tree, which differs, with the author and the message.
  pub update-Landed :
      (base : String) (a : Author) (msg : String) (fn : Tree → E ⊎ List Change) (s : Store R)
      (id : String)
      → (update git base a msg fn s).0 ≡ inr id
      → Landed base a msg fn s (update git base a msg fn s).1 id
  unfolding update
  update-Landed base a msg fn s id h =
      updated-Landed base a msg fn s id (read git "HEAD" s) refl (read-Same git "HEAD" s).0 h
