-- ===== src/Events/Collector.antt =====
-- PoC-webui-v2/internal/events/events.go: the Event Collector, a bounded buffer with counters and a
-- token bucket for drop events, a float64. Times are nanoseconds of the monotonic clock. A subscriber is the contents of its channel.
pub mod Buffer
pub mod Outcome
pub mod Rate
use songbird_prototypes.Prelude.{
  ℕ, zero, suc, ◌+◌, ◌-◌, ◌%◌, ◌^◌, min, String, Bool, ◌&&◌, not, List, [], ◌∷◌, ◌++◌, map, ◌==◌,
  ltb, leb, if◌then◌else◌, length, drop, concat,
}
use songbird_prototypes.Events.Float64.{of_nat, plus, minus, times, seconds}

pub record Event : Type 0 where
  pub id : ℕ
  pub ts : ℕ
  pub type : String  -- FLOW_NEW, FLOW_DROP, FLOW_END
  pub verdict : String  -- accept, drop
  pub reason : String
  pub src : String
  pub dst : String
  pub sport : ℕ
  pub dport : ℕ
  pub proto : String
  pub in_if : String
  pub out_if : String
  pub rule_set : String
  pub policy : String
  pub xdst : String
  pub xsrc : String
  pub packets : ℕ
  pub bytes : ℕ

-- The two maps give 0 for a missing key, as an increment in the source reads it.
pub record Counters : Type 0 where
  pub events_lost : ℕ
  pub reasons : String → ℕ
  pub hits : String → ℕ
  pub accepted : ℕ
  pub dropped : ℕ

pub record Collector : Type 0 where
  pub buf : List Event
  pub next : ℕ
  pub subs : List (List Event)
  pub c : Counters
  pub bucket : ℕ  -- a float64
  pub last_tok : ℕ
  pub open_flows : List Event

abbrev pub buf_size : ℕ
buf_size = 2000

abbrev pub channel_size : ℕ
channel_size = 256

-- The float64 1.
abbrev pub token : ℕ
token = of_nat 1

-- `++` on a uint64.
abbrev pub inc : ℕ → ℕ
inc n = (n + 1) % 2 ^ 64

unfoldable pub new_collector : ℕ → Collector
new_collector now = record {
  buf = [];
  next = 0;
  subs = [];
  c = record { events_lost = 0; reasons = λ k. 0; hits = λ k. 0; accepted = 0; dropped = 0 };
  bucket = of_nat 30;
  last_tok = now;
  open_flows = [];
}

pub inc_at : String → (String → ℕ) → String → ℕ
inc_at k m j = if k == j then inc (m j) else m j

-- The counter of the matched Policy.
unfoldable pub count_hit : Event → Counters → Counters
count_hit e c =
    if not (e.type == "FLOW_END") && not (e.policy == "")
    then record c { hits = inc_at (concat (e.rule_set ∷ "/" ∷ e.policy ∷ [])) c.hits }
    else c

unfoldable pub count_drop : Event → Counters → Counters
count_drop e c = record c { dropped = inc c.dropped; reasons = inc_at e.reason c.reasons }

unfoldable pub count_accept : Event → Counters → Counters
count_accept e c =
    if e.type == "FLOW_NEW"
    then record c { accepted = inc c.accepted; reasons = inc_at e.reason c.reasons }
    else c

-- A send that does not block: a full channel loses the event.
send : Event → List Event → List Event
send e queue = if ltb (length queue) channel_size then queue ++ e ∷ [] else queue

-- A full buffer loses its oldest event.
room : List Event → List Event
room buf = if leb buf_size (length buf) then drop 1 buf else buf

-- The end of `emit`: the event gets the next number, and goes to the buffer and the subscribers.
unfoldable pub store : Event → Collector → Collector
unfolding room send
store e c =
    let e' = record e { id = inc c.next } in
    record c { next = inc c.next; buf = room c.buf ++ e' ∷ []; subs = map (send e') c.subs }

-- The refill of the bucket up to its 30 tokens. Each operation rounds, as on amd64, where Go joins no
-- product and sum.
unfoldable pub refilled : Collector → ℕ → ℕ
refilled c now = min (of_nat 30) (plus c.bucket (times (seconds (now - c.last_tok)) (of_nat 30)))

unfoldable pub is_drop : Event → Bool
is_drop e = e.verdict == "drop"

unfoldable pub emit : Collector → Event → ℕ → Collector
unfolding count_hit count_drop count_accept inc_at refilled is_drop
emit c e now =
    let counted = count_hit e c.c in
    if is_drop e
    then (let n = count_drop e counted in
        let level = refilled c now in
        if ltb level token
        then record c {
          c = record n { events_lost = inc n.events_lost };
          bucket = level;
          last_tok = now;
        }
        else store e (record c { c = n; bucket = minus level token; last_tok = now }))
    else store e (record c { c = count_accept e counted })

-- The last `n` events.
unfoldable pub recent : Collector → ℕ → List Event
recent c n =
    let k = if ltb (length c.buf) n then length c.buf else n in drop (length c.buf - k) c.buf

-- A new channel.
unfoldable pub subscribe : Collector → Collector
subscribe c = record c { subs = [] ∷ c.subs }

-- Events with the times at which they are emitted.
unfoldable pub emit_all : Collector → List (Event × ℕ) → Collector
emit_all c [] = c
emit_all c ((e, now) ∷ es) = emit_all (emit c e now) es

remove_at {ℓ} : {A : Type ℓ} → ℕ → List A → List A
remove_at n [] = []
remove_at zero (x ∷ xs) = xs
remove_at (suc n) (x ∷ xs) = x ∷ remove_at n xs

-- The second result of `Subscribe`, for the subscriber with the number `n`.
pub cancel : ℕ → Collector → Collector
cancel n c = record c { subs = remove_at n c.subs }
