-- ===== src/Audit/Restart.antt =====
-- audit.go, `Open`: a log that is opened again goes on where it stopped.
use songbird_prototypes.Prelude.{ℕ, suc, ◌+◌, String, ◌≡◌, refl, some, List, [], ◌∷◌, arith, length}
use songbird_prototypes.Audit.{Entry, Log, entries, last_entry, open_with, open_log}
use songbird_prototypes.Audit.Chain.{Linked, Numbered, last_hash}

module _ {V : Type 0} where
  last_hash-last_entry :
      (prev : String) (e : Entry V) (es : List (Entry V))
      → last_hash prev (e ∷ es) ≡ (last_entry e es).hash
  unfolding last_entry
  last_hash-last_entry prev e [] = refl
  last_hash-last_entry prev e (f ∷ es) = last_hash-last_entry e.hash f es

  seq-last_entry :
      (k : ℕ) (e : Entry V) (es : List (Entry V))
      → Numbered k (e ∷ es)
      → (last_entry e es).seq ≡ k + length (e ∷ es)
  unfolding last_entry
  seq-last_entry k e [] h = omega (arith, h.0)
  seq-last_entry k e (f ∷ es) h = omega (arith, seq-last_entry (suc k) f es h.1)

module _ {V : Type 0} (norm : V → V) (sha : Entry V → String) where
  open_with_lem :
      (l : Log V) (es : List (Entry V))
      → Numbered 0 es
      → l.last ≡ last_hash "" es
      → l.seq ≡ length es
      → open_with norm l.file (entries es) ≡ some l
  unfolding open_with
  open_with_lem l [] h p q = ground (arith, p, q)
  open_with_lem l (e ∷ es) h p q =
      ground (arith, p, q, last_hash-last_entry "" e es, seq-last_entry 0 e es h)

  -- Opening the file of a log that fits it gives the log again, so a restart loses nothing.
  pub open_log-Linked : (l : Log V) → Linked norm sha l → open_log norm l.file ≡ some l
  unfolding open_log
  open_log-Linked l h = rw h.readable (open_with_lem l h.lines h.numbered h.last_is h.seq_is)
