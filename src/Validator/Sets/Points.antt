-- ===== src/Validator/Sets/Points.antt =====
-- sets.go: what address and service sets mean. Two sets that do not overlap have no address, or no
-- protocol and port, in common.
use songbird_prototypes.Prelude.{
  ℕ, String, ◌≡◌, refl, sym, subst, inl, inr, Bool, true, false, ◌&&◌, ◌||◌, some, [], ◌∷◌, arith,
  ◌==◌, eq_iff, Bool-cases, Option-cases, any, is_empty, lookup, has_key,
}
use mathlib.Core.Option.{some-injective}
use songbird_prototypes.Validator.Intervals
use songbird_prototypes.Validator.Intervals.{Ivs, covered}
use songbird_prototypes.Validator.Intervals.Overlap.{overlaps_all}
use songbird_prototypes.Validator.Sets.{
  AddrSet, SvcSet, PortMap, ports_of, addr_overlaps, svc_overlaps,
}

abbrev pub in_addr : AddrSet → ℕ → Bool
in_addr s p = s.every || covered s.ivs p

abbrev pub in_svc : SvcSet → String → ℕ → Bool
in_svc s proto port = s.every || covered (ports_of proto s.ports) port

covered-nonempty : (s : Ivs) (p : ℕ) → covered s p ≡ true → is_empty s ≡ false
covered-nonempty [] p h = cc
covered-nonempty (i ∷ s) p h = refl

pub addr_overlaps-in_addr :
    (a b : AddrSet) (p : ℕ) → in_addr a p ≡ true → in_addr b p ≡ true → addr_overlaps a b ≡ true
unfolding addr_overlaps
addr_overlaps-in_addr a b p ha hb =
    ground (arith, covered-nonempty a.ivs p, covered-nonempty b.ivs p, overlaps_all a.ivs b.ivs p)

-- A test that some entry of a map meets, where an entry that is looked up meets it.
any-lookup :
    (f : String × Ivs → Bool) (k : String) (m : PortMap) (l : Ivs)
    → lookup k m ≡ some l
    → f (k, l) ≡ true
    → any f m ≡ true
any-lookup f k [] l e h = cc
any-lookup f k ((j, x) ∷ m) l e h = elim (Bool-cases (j == k)) [
  | inl same ↦
      let found : x ≡ l = some-injective x l (rw same at e) in
      rw (
        subst (λ n. f (n, x) ≡ true) (sym ((eq_iff j k).0 same))
          (subst (λ y. f (k, y) ≡ true) (sym found) h))
  | inr other ↦ rw (any-lookup f k m l (rw other at e) h) (ground arith)
]

-- A port that is covered has an entry of its protocol.
ports_of-some :
    (proto : String) (m : PortMap) (port : ℕ)
    → covered (ports_of proto m) port ≡ true
    → (l : Ivs) × (lookup proto m ≡ some l) × (covered l port ≡ true)
ports_of-some proto m port h = elim (Option-cases (lookup proto m)) [
  | inl e ↦ absurd (ground (arith, e, h))
  | inr (l, e) ↦ (l, e, rw (e, ports_of) at h)
]

common_entry :
    (a b : PortMap) (proto : String) (port : ℕ)
    → covered (ports_of proto a) port ≡ true
    → covered (ports_of proto b) port ≡ true
    → any (λ (e : String × Ivs). has_key e.0 b && Intervals.overlaps e.1 (ports_of e.0 b)) a ≡ true
common_entry a b proto port ha hb =
    let (la, ea, ca) = ports_of-some proto a port ha in
    let (lb, eb, cb) = ports_of-some proto b port hb in
    any-lookup (λ (e : String × Ivs). has_key e.0 b && Intervals.overlaps e.1 (ports_of e.0 b))
      proto a la ea (ground (arith, eb, overlaps_all la lb port ca cb))

pub svc_overlaps-in_svc :
    (a b : SvcSet) (proto : String) (port : ℕ)
    → in_svc a proto port ≡ true
    → in_svc b proto port ≡ true
    → svc_overlaps a b ≡ true
unfolding svc_overlaps
svc_overlaps-in_svc a b proto port ha hb = ground (arith, common_entry a.ports b.ports proto port)
