-- ===== src/Events/Collector/Rate.antt =====
-- events.go: the token bucket of drop events, 30 a second with a burst of 30.
use songbird_prototypes.Prelude.{
  ℕ, ◌+◌, ◌-◌, ◌*◌, ◌^◌, ◌≤◌, ◌<◌, inl, inr, List, [], ◌∷◌, arith, ltb, if◌then◌else◌, ltb→lt,
  ltb-false, Bool-cases, length,
}
use songbird_prototypes.Events.Float64.{one, of_nat, times, seconds}
use songbird_prototypes.Events.Float64.Near.{slack, plus_le, minus_le, gain_le}
use songbird_prototypes.Events.Collector.{
  Event, Collector, is_drop, emit, refilled, token, emit_all, new_collector,
}
use songbird_prototypes.Events.Collector.Outcome.{lost, stored_drop, stored_accept, emit-Outcome}

pub drops : List (Event × ℕ) → ℕ
drops [] = 0
drops ((e, now) ∷ es) = (if is_drop e then 1 else 0) + drops es

-- The times do not go back, and lie between `t` and `end`.
unfoldable pub Within : ℕ → ℕ → List (Event × ℕ) → Type 0
Within t end [] = t ≤ end
Within t end ((e, now) ∷ es) = (t ≤ now) × Within now end es

Within-earlier : (s t end : ℕ) (es : List (Event × ℕ)) → s ≤ t → Within t end es → Within s end es
unfolding Within
Within-earlier s t end [] h w = omega arith
Within-earlier s t end ((e, now) ∷ es) h w = (omega (arith, w.0), w.1)

Within-le : (t end : ℕ) (es : List (Event × ℕ)) → Within t end es → t ≤ end
unfolding Within
Within-le t end [] w = w
Within-le t end ((e, now) ∷ es) w = omega (arith, w.0, Within-le now end es w.1)

IsFull : Collector → Type 0
IsFull c = c.bucket ≤ of_nat 30

refilled-most : (c : Collector) (now : ℕ) → refilled c now ≤ of_nat 30
unfolding refilled
refilled-most c now = omega arith

-- A refill gives 30 tokens a second, and the rounding at most 62 units of slack.
refilled-le :
    (c : Collector) (now : ℕ)
    → IsFull c
    → refilled c now * 10 ^ 9
      ≤ c.bucket * 10 ^ 9 + 30 * (now - c.last_tok) * one + 62 * slack * 10 ^ 9
unfolding refilled IsFull
refilled-le c now full =
    let ns = now - c.last_tok in
    let gain = times (seconds ns) (of_nat 30) in
    elim (Bool-cases (ltb ns (10 ^ 9))) [
      | inl e ↦
          let short = ltb→lt ns (10 ^ 9) e in
          let more = gain_le ns short in
          omega (arith, more, plus_le c.bucket gain (omega (arith, full, more, short)))
      | inr e ↦ omega (arith, ltb-false ns (10 ^ 9) e)
    ]

-- One event: a drop is paid by a token of the bucket, or counted as lost.
emit-paid :
    (c : Collector) (e : Event) (now : ℕ)
    → IsFull c
    → c.last_tok ≤ now
    → c.c.events_lost + 1 < 2 ^ 64
    → ((if is_drop e then 1 else 0) + c.c.events_lost) * one * 10 ^ 9
        + (emit c e now).bucket * 10 ^ 9
        + 30 * c.last_tok * one
      ≤ (emit c e now).c.events_lost * one * 10 ^ 9
        + c.bucket * 10 ^ 9
        + 30 * (emit c e now).last_tok * one
        + (if is_drop e then 1 else 0) * 63 * slack * 10 ^ 9
unfolding IsFull
emit-paid c e now full later small =
    let more = refilled-le c now full in
    elim (emit-Outcome c e now) [
      | lost p q same tokens ↦
          rw p (omega (arith, same.events_lost, tokens.bucket, tokens.last_tok, more))
      | stored_drop p q put tokens ↦ rw p (
          omega (
            arith,
            put.events_lost,
            tokens.bucket,
            tokens.last_tok,
            more,
            q,
            minus_le (refilled c now) token (omega (arith, refilled-most c now)),
          ))
      | stored_accept p put tokens ↦
          rw p (omega (arith, put.events_lost, tokens.bucket, tokens.last_tok))
    ]

emit-IsFull : (c : Collector) (e : Event) (now : ℕ) → IsFull c → IsFull (emit c e now)
unfolding IsFull
emit-IsFull c e now full =
    let most = refilled-most c now in
    elim (emit-Outcome c e now) [
      | lost p q same tokens ↦ omega (arith, tokens.bucket, most)
      | stored_drop p q put tokens ↦
          omega (arith, tokens.bucket, most, minus_le (refilled c now) token (omega (arith, most)))
      | stored_accept p put tokens ↦ omega (arith, tokens.bucket, full)
    ]

emit-last_tok :
    (c : Collector) (e : Event) (now : ℕ) → c.last_tok ≤ now → (emit c e now).last_tok ≤ now
emit-last_tok c e now later = elim (emit-Outcome c e now) [
  | lost p q same tokens ↦ omega (arith, tokens.last_tok)
  | stored_drop p q put tokens ↦ omega (arith, tokens.last_tok)
  | stored_accept p put tokens ↦ omega (arith, tokens.last_tok)
]

emit-lost_le :
    (c : Collector) (e : Event) (now : ℕ)
    → c.c.events_lost + 1 < 2 ^ 64
    → (emit c e now).c.events_lost ≤ c.c.events_lost + 1
emit-lost_le c e now small = elim (emit-Outcome c e now) [
  | lost p q same tokens ↦ omega (arith, same.events_lost)
  | stored_drop p q put tokens ↦ omega (arith, put.events_lost)
  | stored_accept p put tokens ↦ omega (arith, put.events_lost)
]

emit_all-paid :
    (c : Collector) (end : ℕ) (es : List (Event × ℕ))
    → IsFull c
    → Within c.last_tok end es
    → c.c.events_lost + length es < 2 ^ 64
    → (drops es + c.c.events_lost) * one * 10 ^ 9 + 30 * c.last_tok * one
      ≤ (emit_all c es).c.events_lost * one * 10 ^ 9
        + c.bucket * 10 ^ 9
        + 30 * end * one
        + drops es * 63 * slack * 10 ^ 9
unfolding emit_all drops Within
emit_all-paid c end [] full times small = omega arith
emit_all-paid c end ((e, now) ∷ es) full times small =
    let d = emit c e now in
    let rest =
      emit_all-paid d end es (emit-IsFull c e now full)
        (Within-earlier d.last_tok now end es (emit-last_tok c e now times.0) times.1)
        (omega (arith, emit-lost_le c e now (omega (arith, small)), small)) in
    omega (arith, rest, emit-paid c e now full times.0 (omega (arith, small)))

-- The rate limit: when fewer than 2 ^ 64 events come at times that do not go back, from the start of
-- the program at `start` until `end`, in nanoseconds, then the drop events that are not counted as
-- lost are at most 30, and 30 more for every second, and 2 ^ -40 more for each drop event, which the
-- rounding of the bucket may give.
pub drops_limited :
    (start end : ℕ) (es : List (Event × ℕ))
    → Within start end es
    → length es < 2 ^ 64
    → drops es * 10 ^ 9 * 2 ^ 40
      ≤ (((emit_all (new_collector start) es).c.events_lost + 30) * 10 ^ 9 + 30 * (end - start))
          * 2 ^ 40
        + drops es * 10 ^ 9
unfolding new_collector IsFull
drops_limited start end es times small = omega (
  arith,
  emit_all-paid (new_collector start) end es (omega arith) times (omega (arith, small)),
  Within-le start end es times,
)
