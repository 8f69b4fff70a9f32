-- ===== src/Audit/Tampering.antt =====
-- audit.go, `Verify`: what the chain shows of a file that something else has written, and what it
-- cannot show.
use songbird_prototypes.Prelude.{
  String, ◌≡◌, refl, sym, ap, ◌∙◌, ◌≢◌, List, [], ◌∷◌, ◌++◌, All, All-map,
}
use songbird_prototypes.Audit.{Entry, intact, blank, verify_from}
use songbird_prototypes.Audit.Chain.{Chained, last_hash, verify_from-Chained, Chained-of_verify}
use mathlib.Core.List.{append-nil}

module _ {V : Type 0} (norm : V → V) (sha : Entry V → String) where
  -- No two different entries of the lists have the same hash.
  abbrev pub NoCollision : List (Entry V) → List (Entry V) → Type 0
  NoCollision xs ys = All (λ e. All (λ f. sha (blank e) ≡ sha (blank f) → blank e ≡ blank f) ys) xs

  -- The chain read from the newest entry.
  head_hash : List (Entry V) → String
  head_hash [] = ""
  head_hash (e ∷ es) = e.hash

  ChainedBack : List (Entry V) → Type 0
  ChainedBack [] = Unit
  ChainedBack (e ∷ es) = (e.prev ≡ head_hash es) × (sha (blank e) ≡ e.hash) × ChainedBack es

  onto : List (Entry V) → List (Entry V) → List (Entry V)
  onto [] acc = acc
  onto (e ∷ es) acc = onto es (e ∷ acc)

  onto-ChainedBack :
      (es acc : List (Entry V))
      → Chained norm sha (head_hash acc) es
      → ChainedBack acc
      → ChainedBack (onto es acc)
  unfolding onto ChainedBack head_hash
  onto-ChainedBack [] acc h k = k
  onto-ChainedBack (e ∷ es) acc h k = onto-ChainedBack es (e ∷ acc) h.2 (h.0, h.1, k)

  head_hash-onto :
      (es acc : List (Entry V)) → head_hash (onto es acc) ≡ last_hash (head_hash acc) es
  unfolding onto head_hash
  head_hash-onto [] acc = refl
  head_hash-onto (e ∷ es) acc = head_hash-onto es (e ∷ acc)

  onto-onto : (es acc bs : List (Entry V)) → onto (onto es acc) bs ≡ onto acc (es ++ bs)
  unfolding onto
  onto-onto [] acc bs = refl
  onto-onto (e ∷ es) acc bs = onto-onto es (e ∷ acc) bs

  All-onto {κ} :
      (P : Entry V → Type κ) (es acc : List (Entry V)) → All P es → All P acc → All P (onto es acc)
  unfolding onto
  All-onto P [] acc h k = k
  All-onto P (e ∷ es) acc h k = All-onto P es (e ∷ acc) h.1 (h.0, k)

  module _ (never_empty : (e : Entry V) → sha e ≢ "") where
    ChainedBack-eq :
        (xs ys : List (Entry V))
        → NoCollision xs ys
        → ChainedBack xs
        → ChainedBack ys
        → head_hash xs ≡ head_hash ys
        → xs ≡ ys
    unfolding ChainedBack head_hash
    ChainedBack-eq [] [] nc hx hy p = refl
    ChainedBack-eq [] (y ∷ ys) nc hx hy p = absurd (never_empty (blank y) (hy.1 ∙ sym p))
    ChainedBack-eq (x ∷ xs) [] nc hx hy p = absurd (never_empty (blank x) (hx.1 ∙ p))
    ChainedBack-eq (x ∷ xs) (y ∷ ys) nc hx hy p =
        let same : blank x ≡ blank y = nc.0.0 (hx.1 ∙ p ∙ sym hy.1) in
        let rest : xs ≡ ys =
          ChainedBack-eq xs ys (All-map _ _ xs (λ e h. h.1) nc.1) hx.2 hy.2
            (sym hx.0 ∙ ap (λ (e : Entry V). e.prev) same ∙ hy.0) in
        λ i. record (same i) { hash = p i } ∷ rest i

    -- Two lists of entries that both verify and end in the same hash are equal, where no two of
    -- their entries collide and no hash is empty: an entry before the last cannot be modified,
    -- removed, added or moved without a change of the last hash.
    pub verify_unique :
        (xs ys : List (Entry V))
        → NoCollision xs ys
        → verify_from norm sha "" 0 xs ≡ intact
        → verify_from norm sha "" 0 ys ≡ intact
        → last_hash "" xs ≡ last_hash "" ys
        → xs ≡ ys
    unfolding head_hash ChainedBack onto
    verify_unique xs ys nc vx vy p =
        let back : onto xs [] ≡ onto ys [] =
          ChainedBack-eq (onto xs []) (onto ys [])
            (All-onto _ xs [] (All-map _ _ xs (λ e h. All-onto _ ys [] h tt) nc) tt)
            (onto-ChainedBack xs [] (Chained-of_verify norm sha "" 0 xs vx) tt)
            (onto-ChainedBack ys [] (Chained-of_verify norm sha "" 0 ys vy) tt)
            (head_hash-onto xs [] ∙ p ∙ sym (head_hash-onto ys [])) in
        sym (append-nil xs)
        ∙ sym (onto-onto xs [] [])
        ∙ ap (λ l. onto l []) back
        ∙ onto-onto ys [] []
        ∙ append-nil ys

  Chained-prefix :
      (prev : String) (xs ys : List (Entry V))
      → Chained norm sha prev (xs ++ ys)
      → Chained norm sha prev xs
  Chained-prefix prev [] ys h = tt
  Chained-prefix prev (x ∷ xs) ys h = (h.0, h.1, Chained-prefix x.hash xs ys h.2)

  -- The removal of entries at the end is not detected: every prefix of a log that verifies does.
  pub verify-prefix :
      (xs ys : List (Entry V))
      → verify_from norm sha "" 0 (xs ++ ys) ≡ intact
      → verify_from norm sha "" 0 xs ≡ intact
  verify-prefix xs ys h =
      verify_from-Chained norm sha "" 0 xs
        (Chained-prefix "" xs ys (Chained-of_verify norm sha "" 0 (xs ++ ys) h))
