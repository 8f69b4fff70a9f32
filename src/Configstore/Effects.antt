-- ===== src/Configstore/Effects.antt =====
-- store.go, `Update`: what an update leaves. A conflict leaves the repository as it was; a new commit is
-- sent to every subscriber.
use songbird_prototypes.Prelude.{
  String, ◌≡◌, refl, sym, subst, ◌⊎◌, inl, inr, Bool, true, false, Option, none, some, List, [],
  ◌∷◌, map, ◌==◌, if_both, All,
}
use songbird_prototypes.Model.Tree.{Tree}
use songbird_prototypes.Configstore.{
  Author, Change, Failure, failed, no_change, rejected, conflict, Git, Store, send, notify, read,
  write, commit, staged, committed, head_of, finish_write, unless_conflict, changed, updated,
  update,
}
use songbird_prototypes.Configstore.Locking.{read-Same}

abbrev IsConflict : {E : Type 0} → Failure E ⊎ String → Type 0
IsConflict (inl (failed e)) = ⊥
IsConflict (inl (rejected e)) = ⊥
IsConflict (inl no_change) = ⊥
IsConflict (inl (conflict f head)) = Unit {0}
IsConflict (inr id) = ⊥

abbrev IsDone : {E : Type 0} → Failure E ⊎ String → Type 0
IsDone (inl e) = ⊥
IsDone (inr id) = Unit {0}

abbrev pub is_full : Option String → Bool
is_full none = false
is_full (some id) = true

-- What reading leaves alone.
abbrev Same : {R : Type 0} → Store R → Store R → Type 0
Same s s' = (s'.repo ≡ s.repo) × (s'.subs ≡ s.subs)

-- A result is no conflict, and a commit that it names has been sent to everyone.
record Written {R E : Type 0} (p : (Failure E ⊎ String) × Store R) : Type 0 where
  pub no_conflict : IsConflict p.0 → ⊥
  pub told : IsDone p.0 → All (λ c. is_full c ≡ true) p.1.subs

-- The outcome of an update from the state `s`.
record Outcome {R E : Type 0} (s : Store R) (p : (Failure E ⊎ String) × Store R) : Type 0 where
  pub refused : IsConflict p.0 → Same s p.1
  pub told : IsDone p.0 → All (λ c. is_full c ≡ true) p.1.subs

send-All : (id : String) (l : List (Option String)) → All (λ c. is_full c ≡ true) (map (send id) l)
unfolding send
send-All id [] = tt
send-All id (none ∷ l) = (refl, send-All id l)
send-All id (some x ∷ l) = (refl, send-All id l)

module _ {R E : Type 0} (git : Git R) where
  head_of-Written : (r : String ⊎ String) (s : Store R) → Written {R = R} {E = E} (head_of git r s)
  unfolding head_of notify
  head_of-Written (inl e) s = record { no_conflict = λ h. h; told = λ h. absurd h }
  head_of-Written (inr id) s = record { no_conflict = λ h. h; told = λ h. send-All id s.subs }

  committed-Written : (r : String ⊎ R) (s : Store R) → Written {R = R} {E = E} (committed git r s)
  unfolding committed
  committed-Written (inl e) s = record { no_conflict = λ h. h; told = λ h. absurd h }
  committed-Written (inr repo) s = head_of-Written _ _

  staged-Written :
      (a : Author) (msg : String) (r : String ⊎ R) (s : Store R)
      → Written {R = R} {E = E} (staged git a msg r s)
  unfolding staged
  staged-Written a msg (inl e) s = record { no_conflict = λ h. h; told = λ h. absurd h }
  staged-Written a msg (inr repo) s =
      if_both Written (git.porcelain repo == "") _ _
        (record { no_conflict = λ h. h; told = λ h. absurd h }) (committed-Written _ _)

  finish-Written :
      (a : Author) (msg : String) (p : Option String × R) (s : Store R)
      → Written {R = R} {E = E} (finish_write git a msg p s)
  unfolding finish_write commit
  finish-Written a msg (some e, repo) s = record { no_conflict = λ h. h; told = λ h. absurd h }
  finish-Written a msg (none, repo) s = staged-Written a msg _ _

  unless-Outcome :
      (a : Author) (msg : String) (cs : List Change) (o : Option (Failure E)) (s s₁ : Store R)
      → Same s s₁
      → Outcome {R = R} {E = E} s (unless_conflict git a msg cs o s₁)
  unfolding unless_conflict
  unless-Outcome a msg cs (some e) s s₁ k = record { refused = λ h. k; told = λ h. absurd h }
  unless-Outcome a msg cs none s s₁ k =
      let w = finish-Written a msg (write git cs s₁.repo) s₁ in
      record { refused = λ h. absurd (w.no_conflict h); told = w.told }

  changed-Outcome :
      (base : String) (a : Author) (msg head : String) (r : E ⊎ List Change) (s s₁ : Store R)
      → Same s s₁
      → Outcome {R = R} {E = E} s (changed git base a msg head r s₁)
  unfolding changed
  changed-Outcome base a msg head (inl e) s s₁ k = record {
    refused = λ h. absurd h;
    told = λ h. absurd h;
  }
  changed-Outcome base a msg head (inr cs) s s₁ k = unless-Outcome a msg cs _ s s₁ k

  updated-Outcome :
      (base : String) (a : Author) (msg : String) (fn : Tree → E ⊎ List Change) (s : Store R)
      (p : (String ⊎ Tree × String) × Store R)
      → Same s p.1
      → Outcome {R = R} {E = E} s (updated git base a msg fn p)
  unfolding updated
  updated-Outcome base a msg fn s (inl e, s₁) k = record {
    refused = λ h. absurd h;
    told = λ h. absurd h;
  }
  updated-Outcome base a msg fn s (inr (t, head), s₁) k =
      changed-Outcome base a msg head (fn t) s s₁ k

  -- An update that ends in a conflict leaves the repository and the channels as they were; after one that
  -- ends in a commit, every subscriber has one to read.
  pub update_outcome :
      (base : String) (a : Author) (msg : String) (fn : Tree → E ⊎ List Change) (s : Store R)
      → let (r, s') = update git base a msg fn s in
        ((f head : String) → r ≡ inl (conflict f head) → (s'.repo ≡ s.repo) × (s'.subs ≡ s.subs))
        × ((id : String) → r ≡ inr id → All (λ c. is_full c ≡ true) s'.subs)
  unfolding update
  update_outcome base a msg fn s =
      let o = updated-Outcome base a msg fn s (read git "HEAD" s) (read-Same git "HEAD" s) in
      (
        λ f head h. o.refused (subst IsConflict (sym h) tt),
        λ id h. o.told (subst IsDone (sym h) tt),
      )
