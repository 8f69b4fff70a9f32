-- ===== src/Auth.antt =====
-- PoC-webui-v2/internal/auth/auth.go: login with lockout, and sessions as signed tokens.
-- Times are nanoseconds after the zero `time.Time`, so `until.IsZero()` is `until` equal to 0; a
-- session expires at a number of seconds. `matches` is `bcrypt.CompareHashAndPassword`, `encode` and
-- `decode` the JSON text of a session in base64, `mac` the HMAC under the server's key in base64.
pub mod Lockout
pub mod Race
pub mod Tokens
use songbird_prototypes.Prelude.{
  ℕ, ◌+◌, ◌/◌, String, Bool, true, false, not, Option, none, some, List, [], ◌∷◌, ◌==◌, ltb, leb,
  eqb, if◌then◌else◌, concat,
}
use Prim.Native.Char.{code}
use songbird_prototypes.Model.Types.{Object, UserSpec}
use songbird_prototypes.Model.System.{session_timeout, lockout_policy}
use songbird_prototypes.Model.Durations.{second}
use songbird_prototypes.Model.Objects.{find}
use songbird_prototypes.Model.Tree.{Tree}
use songbird_prototypes.Model.Edits

-- What Auth reads from the configuration.
pub record Policy : Type 0 where
  pub users : List (Object UserSpec)
  pub session_timeout : ℕ
  pub max_failures : ℕ
  pub lockout_for : ℕ

unfoldable pub policy_of : Tree → Policy
policy_of t =
    let s = Edits.sys t in
    let (n, d) = lockout_policy s in
    record {
      users = t.users;
      session_timeout = session_timeout s;
      max_failures = n;
      lockout_for = d;
    }

pub record Session : Type 0 where
  pub user : String
  pub role : String
  pub exp : ℕ

pub record Failures : Type 0 where
  pub n : ℕ
  pub until : ℕ

-- The map `fails`, from a client address; the other fields of the struct do not change.
pub record Auth : Type 0 where
  pub fails : String → Option Failures

-- The readings of the clock in a login: at the test, at the failure, at the issue of the session.
pub record Clock : Type 0 where
  pub test : ℕ
  pub failure : ℕ
  pub issue : ℕ

pub data Login : Type 0 where
  locked : Login
  invalid : (caused_lockout : Bool) → Login
  welcome : (token : String) → Session → Login

unfoldable pub set_failures : String → Option Failures → Auth → Auth
set_failures source f a = record { fails = λ s. if source == s then f else a.fails s }

before_until : Option Failures → ℕ → Bool
before_until none now = false
before_until (some f) now = ltb now f.until

-- The first critical section of `Login`: whether the address is locked out.
unfoldable pub is_locked : Auth → String → ℕ → Bool
unfolding before_until
is_locked a source now = before_until (a.fails source) now

-- The first failure, or a lockout that is over, starts from zero.
unfoldable pub counted : Option Failures → Failures
counted none = record { n = 0; until = 0 }
counted (some f) = if eqb f.until 0 then f else record { n = 0; until = 0 }

-- The critical section of a failed `Login`; the Boolean tells whether it caused a lockout.
unfoldable pub register_failure : Policy → String → ℕ → Auth → Auth × Bool
unfolding counted set_failures
register_failure conf source now a =
    let f = counted (a.fails source) in
    if leb conf.max_failures (f.n + 1)
    then (set_failures source (some (record { n = 0; until = now + conf.lockout_for })) a, true)
    else (set_failures source (some (record f { n = f.n + 1 })) a, false)

-- The critical section of a successful `Login`.
unfoldable pub register_success : String → Auth → Auth
unfolding set_failures
register_success source a = set_failures source none a

-- `strings.Cut(token, ".")`.
unfoldable pub cut_dot : String → Option (String × String)
cut_dot String.[] = none
cut_dot (String.◌∷◌ c s) =
    let rest = cut_dot s in
    if eqb (code c) b'.'
    then some ("", s)
    else elim rest [ none ↦ none | some (p, q) ↦ some (String.◌∷◌ c p, q) ]

module _ (matches : String → String → Bool) (dummy : String) where
  -- The user whose password this is: an unknown user is compared to a dummy hash, and refused.
  unfoldable pub check : Option (Object UserSpec) → String → Option (Object UserSpec)
  check none pass = if matches dummy pass then none else none
  check (some u) pass = if matches u.spec.password_hash pass then some u else none

module _ (encode : Session → String) (mac : String → String) where
  unfoldable pub sign : Session → String
  sign s = concat (encode s ∷ "." ∷ mac (encode s) ∷ [])

  pub finish : Policy → String → String → Clock → Auth → Option (Object UserSpec) → Auth × Login
  unfolding register_failure register_success
  finish conf user source t a none =
      let (a', caused) = register_failure conf source t.failure a in (a', invalid caused)
  finish conf user source t a (some u) =
      let s : Session = record {
        user = user;
        role = u.spec.role;
        exp = (t.issue + conf.session_timeout) / second;
      } in
      (register_success source a, welcome (sign s) s)

module _ (matches : String → String → Bool) (dummy : String) (encode : Session → String)
    (mac : String → String) where
  -- `Login` where no other call runs between its critical sections.
  unfoldable pub login : Policy → String → String → String → Clock → Auth → Auth × Login
  unfolding finish check is_locked
  login conf user pass source t a =
      if is_locked a source t.test
      then (a, locked)
      else finish encode mac conf user source t a (check matches dummy (find user conf.users) pass)

module _ (decode : String → Option Session) (mac : String → String) where
  pub current : Policy → Session → Option Session
  current conf s = elim (find s.user conf.users) [
    | none ↦ none
    | some u ↦ some (record s { role = u.spec.role })
  ]

  pub verify_parts : Policy → ℕ → Option (String × String) → Option Session
  unfolding current
  verify_parts conf now none = none
  verify_parts conf now (some (p, sig)) = if not (sig == mac p) then none else elim (decode p) [
    | none ↦ none
    | some s ↦ if ltb s.exp (now / second) then none else current conf s
  ]

  -- `Verify`: the signature, the expiry, and the User with its Role of now.
  unfoldable pub verify : Policy → ℕ → String → Option Session
  unfolding verify_parts cut_dot
  verify conf now token = verify_parts conf now (cut_dot token)
