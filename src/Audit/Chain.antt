-- ===== src/Audit/Chain.antt =====
-- audit.go, `Record` and `Verify`: a log that only `Record` has written verifies.
use songbird_prototypes.Prelude.{
  ℕ, suc, ◌+◌, String, ◌≡◌, refl, sym, ap, ◌∙◌, ◌⊎◌, inl, inr, true, Option, none, some, List, [],
  ◌∷◌, ◌++◌, arith, eq_iff, length, length-append,
}
use songbird_prototypes.Audit.{
  Entry, Log, Action, Reading, entries, bad_line, intact, blank, reread, read_from, read, digest,
  new_entry, record_action, verify_from, verify,
}

module _ {V : Type 0} where
  Reading-cases :
      (r : Reading V) → ((es : List (Entry V)) × (r ≡ entries es)) ⊎ ((k : ℕ) × (r ≡ bad_line k))
  Reading-cases (entries es) = inl (es, refl)
  Reading-cases (bad_line k) = inr (k, refl)

  -- The hash of the last entry, or the start of the chain.
  abbrev pub last_hash : String → List (Entry V) → String
  last_hash prev [] = prev
  last_hash prev (e ∷ es) = last_hash e.hash es

  -- The sequence numbers go up by one.
  abbrev pub Numbered : ℕ → List (Entry V) → Type 0
  Numbered k [] = Unit
  Numbered k (e ∷ es) = (e.seq ≡ suc k) × Numbered (suc k) es

  Numbered-snoc :
      (k : ℕ) (es : List (Entry V)) (e : Entry V)
      → Numbered k es
      → e.seq ≡ suc (k + length es)
      → Numbered k (es ++ e ∷ [])
  Numbered-snoc k [] e h p = (omega (arith, p), tt)
  Numbered-snoc k (f ∷ es) e h p = (h.0, Numbered-snoc (suc k) es e h.1 (omega (arith, p)))

  pub last_hash-snoc :
      (prev : String) (es : List (Entry V)) (e : Entry V) → last_hash prev (es ++ e ∷ []) ≡ e.hash
  last_hash-snoc prev [] e = refl
  last_hash-snoc prev (f ∷ es) e = last_hash-snoc f.hash es e

module _ {V : Type 0} (norm : V → V) (sha : Entry V → String) where
  -- Each entry carries the hash of the one before it, and its own.
  abbrev pub Chained : String → List (Entry V) → Type 0
  Chained prev [] = Unit
  Chained prev (e ∷ es) = (e.prev ≡ prev) × (sha (blank e) ≡ e.hash) × Chained e.hash es

  pub verify_from-Chained :
      (prev : String) (i : ℕ) (es : List (Entry V))
      → Chained prev es
      → verify_from norm sha prev i es ≡ intact
  unfolding verify_from
  verify_from-Chained prev i [] h = refl
  verify_from-Chained prev i (e ∷ es) h = ground (
    arith,
    eq_iff e.prev prev,
    eq_iff (sha (blank e)) e.hash,
    verify_from-Chained e.hash (i + 1) es h.2,
  )

  pub Chained-of_verify :
      (prev : String) (i : ℕ) (es : List (Entry V))
      → verify_from norm sha prev i es ≡ intact
      → Chained prev es
  unfolding verify_from
  Chained-of_verify prev i [] h = tt
  Chained-of_verify prev i (e ∷ es) h = (
    ground (arith, eq_iff e.prev prev),
    ground (arith, eq_iff (sha (blank e)) e.hash),
    Chained-of_verify e.hash (i + 1) es
        (ground (arith, eq_iff e.prev prev, eq_iff (sha (blank e)) e.hash)),
  )

  pub Chained-snoc :
      (prev : String) (es : List (Entry V)) (e : Entry V)
      → Chained prev es
      → e.prev ≡ last_hash prev es
      → sha (blank e) ≡ e.hash
      → Chained prev (es ++ e ∷ [])
  Chained-snoc prev [] e h p q = (p, q, tt)
  Chained-snoc prev (f ∷ es) e h p q = (h.0, h.1, Chained-snoc f.hash es e h.2 p q)

  -- The state in memory fits the file: what is between two calls of `Record`.
  pub record Linked (l : Log V) : Type 0 where
    pub lines : List (Entry V)
    pub readable : read norm l.file ≡ entries lines
    pub chained : Chained "" lines
    pub numbered : Numbered 0 lines
    pub last_is : l.last ≡ last_hash "" lines
    pub seq_is : l.seq ≡ length lines

  read_from-snoc :
      (n : ℕ) (ls : List (Option (Entry V))) (es : List (Entry V)) (e : Entry V)
      → read_from norm n ls ≡ entries es
      → read_from norm n (ls ++ some e ∷ []) ≡ entries (es ++ reread norm e ∷ [])
  unfolding read_from
  read_from-snoc n [] es e h = ground arith
  read_from-snoc n (none ∷ ls) es e h = cc
  read_from-snoc n (some f ∷ ls) es e h = elim (Reading-cases (read_from norm (n + 1) ls)) [
    | inl (fs, q) ↦ ground (arith, q, read_from-snoc (n + 1) ls fs e q)
    | inr (k, q) ↦ ground (arith, q)
  ]

  pub read-snoc :
      (ls : List (Option (Entry V))) (es : List (Entry V)) (e : Entry V)
      → read norm ls ≡ entries es
      → read norm (ls ++ some e ∷ []) ≡ entries (es ++ reread norm e ∷ [])
  unfolding read
  read-snoc ls es e h = read_from-snoc 0 ls es e h

  -- A log that fits its file verifies.
  pub verify-Linked :
      (l : Log V) (h : Linked l)
      → verify norm sha l ≡ record { entries = length h.lines; verdict = intact }
  unfolding verify
  verify-Linked l h = rw (h.readable, verify) (rw (verify_from-Chained "" 0 h.lines h.chained))

  pub record_all : Log V → List (Action V) → Log V
  record_all l [] = l
  record_all l (a ∷ rest) = record_all (record_action norm sha l a true) rest

  module _ (idem : (v : V) → norm (norm v) ≡ norm v) where
    pub reread-new_entry :
        (l : Log V) (a : Action V) → reread norm (new_entry norm sha l a) ≡ new_entry norm sha l a
    unfolding reread new_entry
    reread-new_entry l a = ground (arith, idem a.before, idem a.after)

    pub record_action-Linked :
        (l : Log V) (a : Action V) → Linked l → Linked (record_action norm sha l a true)
    unfolding record_action digest
    record_action-Linked l a h = record {
      lines = h.lines ++ new_entry norm sha l a ∷ [];
      readable =
          read-snoc l.file h.lines (new_entry norm sha l a) h.readable
          ∙ ap (λ e. entries (h.lines ++ e ∷ [])) (reread-new_entry l a);
      chained = Chained-snoc "" h.lines (new_entry norm sha l a) h.chained h.last_is refl;
      numbered =
          Numbered-snoc 0 h.lines (new_entry norm sha l a) h.numbered (omega (arith, h.seq_is));
      last_is = sym (last_hash-snoc "" h.lines (new_entry norm sha l a));
      seq_is = omega (arith, h.seq_is, length-append h.lines (new_entry norm sha l a ∷ []));
    }

    record_all-Linked :
        (l : Log V) (actions : List (Action V)) → Linked l → Linked (record_all l actions)
    unfolding record_all
    record_all-Linked l [] h = h
    record_all-Linked l (a ∷ rest) h =
        record_all-Linked (record_action norm sha l a true) rest (record_action-Linked l a h)

    seq-record_all :
        (l : Log V) (actions : List (Action V))
        → (record_all l actions).seq ≡ l.seq + length actions
    unfolding record_all record_action
    seq-record_all l [] = omega arith
    seq-record_all l (a ∷ rest) =
        omega (arith, seq-record_all (record_action norm sha l a true) rest)

    -- From a log that fits its file, any number of successful calls of `Record` leaves a log that
    -- verifies as intact, with one more entry for each call. A JSON round trip is idempotent.
    pub verify-record_all :
        (l : Log V) (actions : List (Action V))
        → Linked l
        → verify norm sha (record_all l actions)
          ≡ record { entries = l.seq + length actions; verdict = intact }
    verify-record_all l actions h =
        let k = record_all-Linked l actions h in
        verify-Linked (record_all l actions) k
        ∙ ap (λ n. record { entries = n; verdict = intact })
            (sym k.seq_is ∙ seq-record_all l actions)
