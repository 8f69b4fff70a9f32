-- ===== src/Tests/AuthTests.antt =====
-- Runs of auth.go, with passwords that are their own hashes, and its theorems at small inputs.
use songbird_prototypes.Prelude.{
  ℕ, ◌+◌, ◌*◌, ◌/◌, ◌≤◌, String, ◌≡◌, refl, Bool, true, false, Option, none, some, [], ◌∷◌, arith,
  ◌==◌, ltb, if◌then◌else◌, All,
}
use songbird_prototypes.Model.Types.{Object, UserSpec}
use songbird_prototypes.Tests.Samples.{object}
use songbird_prototypes.Model.Durations.{second}
use songbird_prototypes.Model.Objects.{find}
use songbird_prototypes.Auth.{
  Auth, Policy, Session, Clock, invalid, welcome, is_locked, counted, register_failure, check,
  login, verify, sign, cut_dot,
}
use songbird_prototypes.Auth.Lockout.{HasFailed, logins, lockout}
use songbird_prototypes.Auth.Tokens.{Coding, verify-login, verify_sound, has_dot}
use songbird_prototypes.Auth.Race.{Reach, lockout_lost}

abbrev matches : String → String → Bool
matches h p = h == p

abbrev encode : Session → String
encode s = s.user

abbrev admin_session : Session
admin_session = record { user = "admin"; role = "admin"; exp = 700 }

abbrev decode : String → Option Session
decode p = if p == "admin" then some admin_session else none

abbrev mac : String → String
mac p = "mac"

abbrev admin : Object UserSpec
admin = object "User" "admin" (record { password_hash = "secret"; role = "admin" })

abbrev conf : Policy
conf = record {
  users = admin ∷ [];
  session_timeout = 600 * second;
  max_failures = 2;
  lockout_for = 300 * second;
}

abbrev at : ℕ → Clock
at n = record { test = n * second; failure = n * second; issue = n * second }

abbrev fresh : Auth
fresh = record { fails = λ s. none }

fresh-HasFailed : HasFailed "10.0.0.1" 0 fresh
unfolding counted is_locked
fresh-HasFailed = record { count = refl; open_at = λ t. refl }

wrong : String × String × Clock
wrong = ("admin", "guess", at 100)

wrong-IsWrong : check matches "none" (find "admin" conf.users) "guess" ≡ none
unfolding check find
wrong-IsWrong = refl

lockout_example :
    let before =
      logins matches "none" encode mac conf "10.0.0.1" (("admin", "guess", at 100) ∷ []) fresh in
    let after = login matches "none" encode mac conf "admin" "guess" "10.0.0.1" (at 101) before.0 in
    All (λ r. r ≡ invalid false) before.1
    × (after.1 ≡ invalid true)
    × ((now : ℕ) → is_locked after.0 "10.0.0.1" now ≡ ltb now ((at 101).failure + conf.lockout_for))
lockout_example =
    lockout matches "none" encode mac conf "10.0.0.1" (("admin", "guess", at 100) ∷ []) "admin"
      "guess" (at 101) fresh (wrong-IsWrong, tt) wrong-IsWrong refl fresh-HasFailed

abbrev held : Auth
held = record {
  fails = λ s. if "10.0.0.1" == s then some (record { n = 0; until = 400 * second }) else none;
}

held_locked : is_locked held "10.0.0.1" (at 200).test ≡ true
unfolding is_locked
held_locked = refl

admin-Coding : Coding encode decode mac admin_session
unfolding has_dot
admin-Coding = record { decoded = refl; no_dot = refl }

admin_found : find "admin" conf.users ≡ some admin
unfolding find
admin_found = refl

admin_login :
    (login matches "none" encode mac conf "admin" "secret" "10.0.0.1" (at 100) fresh).1
    ≡ welcome (sign encode mac admin_session) admin_session
unfolding login check find is_locked
admin_login = refl

verify-login_example :
    verify decode mac conf (699 * second) (sign encode mac admin_session) ≡ some admin_session
verify-login_example =
    verify-login encode decode mac matches "none" conf conf "admin" "secret" "10.0.0.1"
      (sign encode mac admin_session) (at 100) fresh admin_session admin (699 * second) admin-Coding
      admin_login admin_found (omega arith)

verifies : verify decode mac conf (699 * second) "admin.mac" ≡ some admin_session
unfolding verify cut_dot find
verifies = refl

verify_sound_example :
    (payload : String) × (old : Session) × (u : Object UserSpec) × (cut_dot "admin.mac"
      ≡ some (payload, mac payload))
    × (decode payload ≡ some old)
    × (699 * second / second ≤ old.exp)
    × (find old.user conf.users ≡ some u)
    × (admin_session ≡ record old { role = u.spec.role })
verify_sound_example =
    verify_sound decode mac conf (699 * second) "admin.mac" admin_session verifies

once : Auth
once = record { fails = λ s. if "10.0.0.1" == s then some (record { n = 1; until = 0 }) else none }

once-HasFailed : HasFailed "10.0.0.1" 1 once
unfolding counted is_locked once
once-HasFailed = record { count = refl; open_at = λ t. ground arith }

lockout_lost_example :
    let locked = (register_failure conf "10.0.0.1" (100 * second) once).0 in
    let after = (register_failure conf "10.0.0.1" (101 * second) locked).0 in
    Reach conf "10.0.0.1"
      (record { auth = once; comparing = 0 })
      (record { auth = after; comparing = 0 })
    × (is_locked locked "10.0.0.1" (101 * second) ≡ true)
    × ((t : ℕ) → is_locked after "10.0.0.1" t ≡ false)
lockout_lost_example =
    lockout_lost conf "10.0.0.1" 1 (100 * second) (101 * second) once (omega arith) refl
      once-HasFailed (omega arith)
