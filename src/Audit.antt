-- ===== src/Audit.antt =====
-- PoC-webui-v2/internal/audit/audit.go: the Audit Log, entries chained by hash.
-- `V` is the type of the values before and after a change, which the source takes as `any`, and
-- `norm` what a JSON round trip makes of one. `sha` is the hexadecimal SHA-256 of the JSON text of an
-- entry. A line of the file is an entry, or `none` where it does not parse. Lines are
-- shorter than the 16 MiB of the scanner, and a file that exists can be opened.
pub mod Chain
pub mod Restart
pub mod Tampering
pub mod LostWrite
use songbird_prototypes.Prelude.{
  ℕ, ◌+◌, String, Bool, not, Option, none, some, List, [], ◌∷◌, ◌++◌, reverse, ◌==◌, if◌then◌else◌,
  length, take, all,
}

pub record Entry (V : Type 0) : Type 0 where
  pub seq : ℕ
  pub time : String
  pub actor : String
  pub source : String
  pub action : String
  pub target : String
  pub detail : String
  pub before : V
  pub after : V
  pub prev : String
  pub hash : String

pub record Log (V : Type 0) : Type 0 where
  pub last : String
  pub seq : ℕ
  pub file : List (Option (Entry V))

-- The arguments of `Record`, and the time at which it is called.
pub record Action (V : Type 0) : Type 0 where
  pub now : String
  pub actor : String
  pub source : String
  pub action : String
  pub target : String
  pub detail : String
  pub before : V
  pub after : V

-- The result of `read`: the entries, or the number of the first line that does not parse.
pub data Reading (V : Type 0) : Type 0 where
  entries : List (Entry V) → Reading V
  bad_line : ℕ → Reading V

pub data Verdict : Type 0 where
  intact : Verdict
  not_chained : (seq i : ℕ) → Verdict
  was_modified : (seq : ℕ) → Verdict
  unreadable : (line : ℕ) → Verdict

-- `Verification`: the verdict stands for `OK`, `BrokenAt` and `Reason`.
pub record Verification : Type 0 where
  pub entries : ℕ
  pub verdict : Verdict

module _ {V : Type 0} where
  abbrev pub blank : Entry V → Entry V
  blank e = record e { hash = "" }

  pub last_entry : Entry V → List (Entry V) → Entry V
  last_entry e [] = e
  last_entry e (f ∷ es) = last_entry f es

  take_newest : ℕ → List (Entry V) → List (Entry V)
  take_newest n all = take n (reverse all)

module _ {V : Type 0} (norm : V → V) where
  -- A JSON round trip of an entry; it changes no text and no number.
  unfoldable pub reread : Entry V → Entry V
  reread e = record e { before = norm e.before; after = norm e.after }

  pub read_from : ℕ → List (Option (Entry V)) → Reading V
  unfolding reread
  read_from n [] = entries []
  read_from n (none ∷ ls) = bad_line (n + 1)
  read_from n (some e ∷ ls) = elim (read_from (n + 1) ls) [
    | entries es ↦ entries (reread e ∷ es)
    | bad_line k ↦ bad_line k
  ]

  unfoldable pub read : List (Option (Entry V)) → Reading V
  unfolding read_from
  read file = read_from 0 file

  pub open_with : List (Option (Entry V)) → Reading V → Option (Log V)
  open_with file (bad_line k) = none
  open_with file (entries []) = some (record { last = ""; seq = 0; file = file })
  open_with file (entries (e ∷ es)) =
      some (record { last = (last_entry e es).hash; seq = (last_entry e es).seq; file = file })

  -- `Open`: the log goes on from the last entry of the file.
  unfoldable pub open_log : List (Option (Entry V)) → Option (Log V)
  unfolding open_with last_entry read
  open_log file = open_with file (read file)

  -- The last `n` entries, newest first; `none` is the error of `read`.
  unfoldable pub tail : ℕ → Log V → Option (List (Entry V))
  unfolding take_newest
  tail n l = elim (read l.file) [ entries es ↦ some (take_newest n es) | bad_line k ↦ none ]

module _ {V : Type 0} (norm : V → V) (sha : Entry V → String) where
  unfoldable pub digest : Entry V → String
  digest e = sha (blank e)

  -- The entry that `Record` makes.
  pub new_entry : Log V → Action V → Entry V
  new_entry l a =
      let e : Entry V = record {
        seq = l.seq + 1;
        time = a.now;
        actor = a.actor;
        source = a.source;
        action = a.action;
        target = a.target;
        detail = a.detail;
        before = norm a.before;
        after = norm a.after;
        prev = l.last;
        hash = "";
      } in
      record e { hash = digest e }

  -- `Record`. `written` tells whether the file could be opened and written: an error is dropped, and
  -- the log goes on from the entry all the same.
  unfoldable pub record_action : Log V → Action V → Bool → Log V
  unfolding new_entry
  record_action l a written = record {
    last = (new_entry l a).hash;
    seq = l.seq + 1;
    file = if written then l.file ++ some (new_entry l a) ∷ [] else l.file;
  }

  -- The loop of `Verify` over the entries, from the hash of the entry before them.
  pub verify_from : String → ℕ → List (Entry V) → Verdict
  unfolding digest
  verify_from prev i [] = intact
  verify_from prev i (e ∷ es) =
      if not (e.prev == prev)
      then not_chained e.seq i
      else if not (digest e == e.hash)
      then was_modified e.seq
      else verify_from e.hash (i + 1) es

  unfoldable pub verify : Log V → Verification
  unfolding verify_from read
  verify l = elim (read norm l.file) [
    | entries es ↦ record { entries = length es; verdict = verify_from "" 0 es }
    | bad_line k ↦ record { entries = 0; verdict = unreadable k }
  ]
