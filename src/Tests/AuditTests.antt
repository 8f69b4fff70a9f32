-- ===== src/Tests/AuditTests.antt =====
-- Runs of audit.go, and its theorems at small logs. The hash of an entry is a short text here.
use songbird_prototypes.Prelude.{
  ℕ, String, ◌≡◌, refl, ◌≢◌, inl, inr, true, false, some, List, [], ◌∷◌, map, ◌==◌, if◌then◌else◌,
  Bool-cases, ne_of_test,
}
use songbird_prototypes.Audit.{
  Entry, Log, Action, intact, not_chained, read, record_action, verify_from, verify, open_log,
  digest,
}
use songbird_prototypes.Audit.Chain.{Linked, record_all, verify-record_all}
use songbird_prototypes.Audit.Restart.{open_log-Linked}
use songbird_prototypes.Audit.Tampering.{verify_unique, verify-prefix}
use songbird_prototypes.Audit.LostWrite.{verify-lost_write}

abbrev sha : Entry ℕ → String
sha e = if e.action == "login" then "aa" else "bb"

abbrev norm : ℕ → ℕ
norm v = v

sha-ne : (e : Entry ℕ) → sha e ≢ ""
sha-ne e = elim (Bool-cases (e.action == "login")) [
  | inl h ↦ rw h (ne_of_test "aa" "" refl)
  | inr h ↦ rw h (ne_of_test "bb" "" refl)
]

abbrev empty_log : Log ℕ
empty_log = record { last = ""; seq = 0; file = [] }

abbrev action : String → Action ℕ
action a = record {
  now = "2026-01-01T00:00:00Z";
  actor = "admin";
  source = "10.0.0.1";
  action = a;
  target = "";
  detail = "";
  before = 1;
  after = 2;
}

empty_log-Linked : Linked norm sha empty_log
unfolding read
empty_log-Linked = record {
  lines = [];
  readable = refl;
  chained = tt;
  numbered = tt;
  last_is = refl;
  seq_is = refl;
}

verify-record_all_example :
    verify norm sha (record_all norm sha empty_log (action "login" ∷ action "commit" ∷ []))
    ≡ record { entries = 2; verdict = intact }
verify-record_all_example =
    verify-record_all norm sha (λ v. refl) empty_log (action "login" ∷ action "commit" ∷ [])
      empty_log-Linked

abbrev entry : ℕ → String → String → String → Entry ℕ
entry n a p h = record {
  seq = n;
  time = "2026-01-01T00:00:00Z";
  actor = "admin";
  source = "10.0.0.1";
  action = a;
  target = "";
  detail = "";
  before = 1;
  after = 2;
  prev = p;
  hash = h;
}

abbrev two_entries : List (Entry ℕ)
two_entries = entry 1 "login" "" "aa" ∷ entry 2 "commit" "aa" "bb" ∷ []

abbrev two_log : Log ℕ
two_log = record { last = "bb"; seq = 2; file = map some two_entries }

two_log-Linked : Linked norm sha two_log
unfolding read
two_log-Linked = record {
  lines = two_entries;
  readable = refl;
  chained = (refl, refl, (refl, refl, tt));
  numbered = (refl, (refl, tt));
  last_is = refl;
  seq_is = refl;
}

open_log-Linked_example : open_log norm two_log.file ≡ some two_log
open_log-Linked_example = open_log-Linked norm sha two_log two_log-Linked

two_entries_intact : verify_from norm sha "" 0 two_entries ≡ intact
unfolding verify
two_entries_intact = refl

verify_unique_example : two_entries ≡ two_entries
verify_unique_example =
    verify_unique norm sha sha-ne two_entries two_entries
      (
        (λ p. refl, (λ p. absurd (ne_of_test "aa" "bb" refl p), tt)),
        ((λ p. absurd (ne_of_test "bb" "aa" refl p), (λ p. refl, tt)), tt),
      )
      two_entries_intact two_entries_intact refl

verify-prefix_example : verify_from norm sha "" 0 (entry 1 "login" "" "aa" ∷ []) ≡ intact
verify-prefix_example =
    verify-prefix norm sha (entry 1 "login" "" "aa" ∷ []) (entry 2 "commit" "aa" "bb" ∷ [])
      two_entries_intact

verify-lost_write_example :
    verify norm sha (
      record_action norm sha
        (record_action norm sha empty_log (action "login") false)
        (action "commit")
        true)
    ≡ record { entries = 1; verdict = not_chained 2 0 }
unfolding record_action digest
verify-lost_write_example =
    verify-lost_write norm sha (λ v. refl) empty_log (action "login") (action "commit")
      empty_log-Linked (ne_of_test "aa" "" refl)
