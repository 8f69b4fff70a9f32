-- ===== src/Events/Collector/Buffer.antt =====
-- events.go: the buffer holds the last events, at most 2000, under consecutive numbers.
use songbird_prototypes.Prelude.{
  ℕ, zero, suc, ◌+◌, ◌-◌, ◌%◌, ◌^◌, ◌≤◌, ◌<◌, min, ◌≡◌, sym, subst, inl, inr, List, [], ◌∷◌, ◌++◌,
  arith, ltb, leb, if◌then◌else◌, Bool-cases, length, drop, length-append,
}
use songbird_prototypes.Events.Collector.{
  Event, Collector, buf_size, inc, emit, store, room, recent, emit_all, new_collector,
}
use songbird_prototypes.Events.Collector.Outcome.{lost, stored_drop, stored_accept, emit-Outcome}

-- The events are numbered up to `n`, without a gap.
abbrev pub EndsAt : ℕ → List Event → Type 0
EndsAt n [] = Unit
EndsAt n (e ∷ es) = (e.id + length es ≡ n) × EndsAt n es

-- The buffer is bounded, and its last event is the last that was numbered.
pub record IsOrdered (c : Collector) : Type 0 where
  pub bounded : length c.buf ≤ buf_size
  pub numbered : EndsAt c.next c.buf

EndsAt-snoc :
    (n : ℕ) (es : List Event) (e : Event)
    → EndsAt n es
    → e.id ≡ n + 1
    → EndsAt (n + 1) (es ++ e ∷ [])
EndsAt-snoc n [] e h p = (omega (arith, p), tt)
EndsAt-snoc n (f ∷ es) e h p =
    (omega (arith, h.0, length-append es (e ∷ [])), EndsAt-snoc n es e h.1 p)

EndsAt-drop : (n : ℕ) (es : List Event) → EndsAt n es → EndsAt n (drop 1 es)
EndsAt-drop n [] h = tt
EndsAt-drop n (e ∷ es) h = h.1

length-drop_one : (es : List Event) → length (drop 1 es) ≡ length es - 1
length-drop_one [] = omega arith
length-drop_one (e ∷ es) = omega arith

room-le : (es : List Event) → length es ≤ buf_size → length (room es) + 1 ≤ buf_size
unfolding room
room-le es h = ground (arith, length-drop_one es)

room-EndsAt : (n : ℕ) (es : List Event) → EndsAt n es → EndsAt n (room es)
unfolding room
room-EndsAt n es h = elim (Bool-cases (leb buf_size (length es))) [
  | inl e ↦ rw (e, EndsAt) (EndsAt-drop n es h)
  | inr e ↦ rw (e, EndsAt) h
]

store-IsOrdered :
    (e : Event) (c : Collector) → c.next + 1 < 2 ^ 64 → IsOrdered c → IsOrdered (store e c)
unfolding store
store-IsOrdered e c small h =
    let step : (c.next + 1) % 2 ^ 64 ≡ c.next + 1 = omega arith in
    record {
      bounded = omega (
        arith,
        room-le c.buf h.bounded,
        length-append (room c.buf) (record e { id = inc c.next } ∷ []),
      );
      numbered =
          subst (λ n. EndsAt n (room c.buf ++ record e { id = inc c.next } ∷ [])) (sym step)
            (EndsAt-snoc c.next (room c.buf) (record e { id = inc c.next })
              (room-EndsAt c.next c.buf h.numbered) step);
    }

-- The counters and the bucket have no part in it.
IsOrdered-moved : (c d : Collector) → d.buf ≡ c.buf → d.next ≡ c.next → IsOrdered c → IsOrdered d
IsOrdered-moved c d same_buf same_next h = record {
  bounded = subst (λ es. length es ≤ buf_size) (sym same_buf) h.bounded;
  numbered =
      subst (λ n. EndsAt n d.buf) (sym same_next)
        (subst (λ es. EndsAt c.next es) (sym same_buf) h.numbered);
}

emit-IsOrdered :
    (c : Collector) (e : Event) (now : ℕ)
    → c.next + 1 < 2 ^ 64
    → IsOrdered c
    → IsOrdered (emit c e now)
emit-IsOrdered c e now small h = elim (emit-Outcome c e now) [
  | lost _ _ same _ ↦ IsOrdered-moved c (emit c e now) same.buf same.next h
  | stored_drop _ _ put _ ↦
      IsOrdered-moved (store e c) (emit c e now) put.buf put.next (store-IsOrdered e c small h)
  | stored_accept _ put _ ↦
      IsOrdered-moved (store e c) (emit c e now) put.buf put.next (store-IsOrdered e c small h)
]

-- Every event has a number or is counted as lost.
emit-count :
    (c : Collector) (e : Event) (now : ℕ)
    → c.next + c.c.events_lost + 1 < 2 ^ 64
    → (emit c e now).next + (emit c e now).c.events_lost ≡ c.next + c.c.events_lost + 1
unfolding store
emit-count c e now small = elim (emit-Outcome c e now) [
  | lost _ _ same _ ↦ omega (arith, same.next, same.events_lost, small)
  | stored_drop _ _ put _ ↦ omega (arith, put.next, put.events_lost, small)
  | stored_accept _ put _ ↦ omega (arith, put.next, put.events_lost, small)
]

-- From any ordered state: the buffer stays ordered.
emit_all-IsOrdered :
    (c : Collector) (es : List (Event × ℕ))
    → c.next + c.c.events_lost + length es < 2 ^ 64
    → IsOrdered c
    → IsOrdered (emit_all c es)
      × ((emit_all c es).next + (emit_all c es).c.events_lost
          ≡ c.next + c.c.events_lost + length es)
unfolding emit_all
emit_all-IsOrdered c [] small h = (h, omega arith)
emit_all-IsOrdered c ((e, now) ∷ es) small h =
    let count : (emit c e now).next + (emit c e now).c.events_lost ≡ c.next + c.c.events_lost + 1 =
      emit-count c e now (omega arith) in
    let rest =
      emit_all-IsOrdered (emit c e now) es (omega (arith, count, small))
        (emit-IsOrdered c e now (omega arith) h) in
    (rest.0, omega (arith, rest.1, count))

-- From the start of the program, after fewer than 2 ^ 64 events at any times: the buffer holds at
-- most 2000 events under consecutive numbers up to the last one given, and every event emitted has
-- either a number or is counted as lost.
pub buffer_of_emits :
    (start : ℕ) (es : List (Event × ℕ))
    → length es < 2 ^ 64
    → IsOrdered (emit_all (new_collector start) es)
      × ((emit_all (new_collector start) es).next
            + (emit_all (new_collector start) es).c.events_lost
          ≡ length es)
unfolding new_collector
buffer_of_emits start es small =
    let h =
      emit_all-IsOrdered (new_collector start) es (omega arith)
        (record { bounded = omega arith; numbered = tt }) in
    (h.0, omega (arith, h.1))

EndsAt-drop_all : (k n : ℕ) (es : List Event) → EndsAt n es → EndsAt n (drop k es)
EndsAt-drop_all zero n es h = h
EndsAt-drop_all (suc k) n [] h = tt
EndsAt-drop_all (suc k) n (e ∷ es) h = EndsAt-drop_all k n es h.1

length-drop : (k : ℕ) (es : List Event) → length (drop k es) ≡ length es - k
length-drop zero es = omega arith
length-drop (suc k) [] = omega arith
length-drop (suc k) (e ∷ es) = omega (arith, length-drop k es)

-- In an ordered state, `recent c n` gives the last `n` events, or all when there are fewer, under
-- consecutive numbers that end with the last number given.
pub recent-EndsAt :
    (c : Collector) (n : ℕ)
    → IsOrdered c
    → (length (recent c n) ≡ min n (length c.buf)) × EndsAt c.next (recent c n)
unfolding recent
recent-EndsAt c n h =
    let k = if ltb (length c.buf) n then length c.buf else n in
    (
      ground (arith, length-drop (length c.buf - k) c.buf),
      EndsAt-drop_all (length c.buf - k) c.next c.buf h.numbered,
    )
