-- ===== src/Tests/EventTests.antt =====
-- Runs of events.go, and its theorems at short sequences of events.
use songbird_prototypes.Prelude.{
  ℕ, ◌+◌, ◌-◌, ◌*◌, ◌^◌, ◌≤◌, String, ◌≡◌, refl, List, [], ◌∷◌, map, arith,
}
use songbird_prototypes.Events.Float64.{of_nat, over, plus, seconds, rounded, spare, nearest}
use songbird_prototypes.Events.Collector.{Event, new_collector, emit_all, recent, emit, store}
use songbird_prototypes.Events.Collector.Buffer.{IsOrdered, buffer_of_emits}
use songbird_prototypes.Events.Collector.Rate.{Within, drops, drops_limited}

abbrev event : String → Event
event v = record {
  id = 0;
  ts = 0;
  type = "FLOW_DROP";
  verdict = v;
  reason = "NO_MATCH";
  src = "10.0.0.10";
  dst = "10.0.0.25";
  sport = 40000;
  dport = 25;
  proto = "tcp";
  in_if = "eth1";
  out_if = "eth0";
  rule_set = "";
  policy = "";
  xdst = "";
  xsrc = "";
  packets = 1;
  bytes = 60;
}

abbrev two_events : List (Event × ℕ)
two_events = (event "drop", 1000) ∷ (event "accept", 2000) ∷ []

buffer_of_emits_example :
    IsOrdered (emit_all (new_collector 0) two_events)
    × ((emit_all (new_collector 0) two_events).next
          + (emit_all (new_collector 0) two_events).c.events_lost
        ≡ 2)
buffer_of_emits_example = buffer_of_emits 0 two_events (omega arith)

-- The event of the second call is the last one, under the number 2.
last_event :
    map {B = ℕ × String}
      (λ (e : Event). (e.id, e.verdict))
      (recent (emit_all (new_collector 0) two_events) 1)
    ≡ (2, "accept") ∷ []
unfolding recent emit_all emit new_collector store plus rounded
    songbird_prototypes.Events.Float64.times seconds over
last_event = refl

two_events-Within : Within 0 2000 two_events
unfolding Within
two_events-Within = (omega arith, (omega arith, omega arith))

drops_limited_example :
    drops two_events * 10 ^ 9 * 2 ^ 40
    ≤ (((emit_all (new_collector 0) two_events).c.events_lost + 30) * 10 ^ 9 + 30 * (2000 - 0))
        * 2 ^ 40
      + drops two_events * 10 ^ 9
drops_limited_example = drops_limited 0 2000 two_events two_events-Within (omega arith)

-- The float64 0.1, and the seconds of 33,333,333 nanoseconds.
tenth : over (of_nat 1) (of_nat 10) ≡ 7_205_759_403_792_794 * 2 ^ 1018
unfolding over rounded spare nearest
tenth = refl

parts_of_second : seconds 33_333_333 ≡ 4_803_839_554_490_133 * 2 ^ 1017
unfolding seconds plus over rounded spare nearest
parts_of_second = refl
