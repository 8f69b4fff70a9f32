-- ===== src/Audit/LostWrite.antt =====
-- audit.go, `Record`: what an entry that could not be written leaves behind.
use songbird_prototypes.Prelude.{
  ℕ, ◌+◌, String, ◌≡◌, sym, ap, ◌∙◌, ◌≢◌, true, false, some, List, [], ◌∷◌, ◌++◌, arith, eq_iff,
  length, length-append,
}
use songbird_prototypes.Audit.{
  Entry, Log, Action, entries, not_chained, blank, read, new_entry, record_action, verify_from,
  verify,
}
use songbird_prototypes.Audit.Chain.{Linked, Chained, last_hash, read-snoc, reread-new_entry}

module _ {V : Type 0} (norm : V → V) (sha : Entry V → String) where
  verify_from-snoc :
      (prev : String) (i : ℕ) (es : List (Entry V)) (e : Entry V)
      → Chained norm sha prev es
      → e.prev ≢ last_hash prev es
      → verify_from norm sha prev i (es ++ e ∷ []) ≡ not_chained e.seq (i + length es)
  unfolding verify_from
  verify_from-snoc prev i [] e h ne = ground (arith, eq_iff e.prev prev)
  verify_from-snoc prev i (f ∷ es) e h ne = ground (
    arith,
    eq_iff f.prev prev,
    eq_iff (sha (blank f)) f.hash,
    verify_from-snoc f.hash (i + 1) es e h.2 ne,
  )

  -- When the write of an entry fails and the next one succeeds, the log is found broken at that next
  -- entry, since it chains to the entry that was lost. The lost entry's hash is not the hash of the
  -- last entry in the file.
  pub verify-lost_write :
      (idem : (v : V) → norm (norm v) ≡ norm v) (l : Log V) (lost next : Action V)
      → Linked norm sha l
      → (record_action norm sha l lost false).last ≢ l.last
      → verify norm sha (record_action norm sha (record_action norm sha l lost false) next true)
        ≡ record { entries = l.seq + 1; verdict = not_chained (l.seq + 2) l.seq }
  unfolding verify record_action new_entry
  verify-lost_write idem l lost next h ne =
      let l' : Log V = record_action norm sha l lost false in
      let e : Entry V = new_entry norm sha l' next in
      let readable : read norm (l.file ++ some e ∷ []) ≡ entries (h.lines ++ e ∷ []) =
        read-snoc norm sha l.file h.lines e h.readable
        ∙ ap (λ x. entries (h.lines ++ x ∷ [])) (reread-new_entry norm sha idem l' next) in
      let broken : verify_from norm sha "" 0 (h.lines ++ e ∷ []) ≡ not_chained (l.seq + 2) l.seq =
        verify_from-snoc "" 0 h.lines e h.chained (λ p. ne (p ∙ sym h.last_is))
        ∙ ground (arith, h.seq_is) in
      rw (readable, verify) (λ i. record { entries = lines_eq e i; verdict = broken i })
    where
      lines_eq : (e : Entry V) → length (h.lines ++ e ∷ []) ≡ l.seq + 1
      lines_eq e = omega (arith, length-append h.lines (e ∷ []), h.seq_is)
