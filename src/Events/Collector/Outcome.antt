-- ===== src/Events/Collector/Outcome.antt =====
-- events.go: the three ways in which Emit ends.
use songbird_prototypes.Prelude.{
  ℕ, ◌≤◌, ◌<◌, ◌≡◌, refl, sym, ap, ◌∙◌, subst, inl, inr, true, false, ◌&&◌, not, ◌==◌, ltb, ltb→lt,
  ltb-false, Bool-cases,
}
use songbird_prototypes.Events.Float64.{minus}
use songbird_prototypes.Events.Collector.{
  Event, Collector, Counters, inc, is_drop, emit, store, refilled, token, count_drop, count_hit,
  count_accept,
}

-- Two states have one buffer, one number, and the subscribers' channels.
pub record SameBuffer (c d : Collector) (losses : ℕ) : Type 0 where
  pub buf : d.buf ≡ c.buf
  pub next : d.next ≡ c.next
  pub subs : d.subs ≡ c.subs
  pub events_lost : d.c.events_lost ≡ losses

-- The token bucket after a drop event at the time `now`.
pub record Refilled (d : Collector) (level now : ℕ) : Type 0 where
  pub bucket : d.bucket ≡ level
  pub last_tok : d.last_tok ≡ now

pub data Outcome (c : Collector) (e : Event) (now : ℕ) (d : Collector) : Type 0 where
  lost :
      is_drop e ≡ true
      → refilled c now < token
      → SameBuffer c d (inc c.c.events_lost)
      → Refilled d (refilled c now) now
      → Outcome c e now d
  stored_drop :
      is_drop e ≡ true
      → token ≤ refilled c now
      → SameBuffer (store e c) d c.c.events_lost
      → Refilled d (minus (refilled c now) token) now
      → Outcome c e now d
  stored_accept :
      is_drop e ≡ false
      → SameBuffer (store e c) d c.c.events_lost
      → Refilled d c.bucket c.last_tok
      → Outcome c e now d

count_hit-lost : (e : Event) (n : Counters) → (count_hit e n).events_lost ≡ n.events_lost
unfolding count_hit
count_hit-lost e n = elim (Bool-cases (not (e.type == "FLOW_END") && not (e.policy == ""))) [
  | inl p ↦ rw p refl
  | inr p ↦ rw p refl
]

count_accept-lost : (e : Event) (n : Counters) → (count_accept e n).events_lost ≡ n.events_lost
unfolding count_accept
count_accept-lost e n = elim (Bool-cases (e.type == "FLOW_NEW")) [
  | inl p ↦ rw p refl
  | inr p ↦ rw p refl
]

count_drop-lost : (e : Event) (n : Counters) → (count_drop e n).events_lost ≡ n.events_lost
unfolding count_drop
count_drop-lost e n = refl

emit-lost :
    (c : Collector) (e : Event) (now : ℕ)
    → is_drop e ≡ true
    → ltb (refilled c now) token ≡ true
    → emit c e now ≡ record c {
      c = record (count_drop e (count_hit e c.c)) {
        events_lost = inc (count_drop e (count_hit e c.c)).events_lost;
      };
      bucket = refilled c now;
      last_tok = now;
    }
unfolding emit
emit-lost c e now p q = rw (p, q) refl

emit-stored_drop :
    (c : Collector) (e : Event) (now : ℕ)
    → is_drop e ≡ true
    → ltb (refilled c now) token ≡ false
    → emit c e now
      ≡ store e (record c {
        c = count_drop e (count_hit e c.c);
        bucket = minus (refilled c now) token;
        last_tok = now;
      })
unfolding emit
emit-stored_drop c e now p q = rw (p, q) refl

emit-stored_accept :
    (c : Collector) (e : Event) (now : ℕ)
    → is_drop e ≡ false
    → emit c e now ≡ store e (record c { c = count_accept e (count_hit e c.c) })
unfolding emit
emit-stored_accept c e now p = rw p refl

pub emit-Outcome : (c : Collector) (e : Event) (now : ℕ) → Outcome c e now (emit c e now)
unfolding store
emit-Outcome c e now =
    let hit = count_hit-lost e c.c in
    let drop = count_drop-lost e (count_hit e c.c) ∙ hit in
    elim (Bool-cases (is_drop e)) [
      | inl p ↦ elim (Bool-cases (ltb (refilled c now) token)) [
        | inl q ↦ subst (Outcome c e now) (sym (emit-lost c e now p q)) (
            lost p (ltb→lt (refilled c now) token q)
              (record { buf = refl; next = refl; subs = refl; events_lost = ap inc drop })
              (record { bucket = refl; last_tok = refl }))
        | inr q ↦ subst (Outcome c e now) (sym (emit-stored_drop c e now p q)) (
            stored_drop p (ltb-false (refilled c now) token q)
              (record { buf = refl; next = refl; subs = refl; events_lost = drop })
              (record { bucket = refl; last_tok = refl }))
      ]
      | inr p ↦ subst (Outcome c e now) (sym (emit-stored_accept c e now p)) (
          stored_accept p
            (record {
              buf = refl;
              next = refl;
              subs = refl;
              events_lost = count_accept-lost e (count_hit e c.c) ∙ hit;
            })
            (record { bucket = refl; last_tok = refl }))
    ]
