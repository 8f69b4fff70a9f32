-- ===== src/Auth/Lockout.antt =====
-- auth.go, `Login`: the lockout of a client address, when its logins run one after the other.
use songbird_prototypes.Prelude.{
  ℕ, ◌+◌, ◌<◌, String, ◌≡◌, refl, ap, ◌∙◌, subst, Bool, true, false, none, List, [], ◌∷◌, arith,
  ◌==◌, eq_refl, ltb, length, all, All,
}
use songbird_prototypes.Model.Objects.{find}
use songbird_prototypes.Auth.{
  Auth, Policy, Session, Clock, Login, locked, invalid, is_locked, counted, register_failure, check,
  finish, login,
}

-- An address with `k` failures since its last success or lockout, and not locked out.
pub record HasFailed (source : String) (k : ℕ) (a : Auth) : Type 0 where
  pub count : counted (a.fails source) ≡ record { n = k; until = 0 }
  pub open_at : (now : ℕ) → is_locked a source now ≡ false

module _ (conf : Policy) (source : String) where
  pub register_failure-below :
      (k now : ℕ) (a : Auth)
      → k + 1 < conf.max_failures
      → HasFailed source k a
      → ((register_failure conf source now a).1 ≡ false)
        × HasFailed source (k + 1) (register_failure conf source now a).0
  unfolding register_failure is_locked
  register_failure-below k now a h f = (
    ground (arith, f.count),
    record {
      count = ground (arith, f.count, eq_refl source);
      open_at = λ t. ground (arith, f.count, eq_refl source);
    },
  )

  pub register_failure-last :
      (k now : ℕ) (a : Auth)
      → k + 1 ≡ conf.max_failures
      → HasFailed source k a
      → ((register_failure conf source now a).1 ≡ true)
        × ((t : ℕ)
            → is_locked (register_failure conf source now a).0 source t
              ≡ ltb t (now + conf.lockout_for))
  unfolding register_failure is_locked
  register_failure-last k now a h f =
      (ground (arith, f.count), λ t. ground (arith, f.count, eq_refl source))

module _ (matches : String → String → Bool) (dummy : String) (encode : Session → String)
    (mac : String → String) (conf : Policy) (source : String) where
  -- One login after another from one address, each with its user, its password and its clock.
  pub logins : List (String × String × Clock) → Auth → Auth × List Login
  logins [] a = (a, [])
  logins ((user, pass, t) ∷ rest) a =
      let (a', r) = login matches dummy encode mac conf user pass source t a in
      let (a'', rs) = logins rest a' in (a'', r ∷ rs)

  -- The password of an attempt is not the user's, or there is no such user.
  abbrev pub IsWrong : String × String × Clock → Type 0
  IsWrong (user, pass, t) = check matches dummy (find user conf.users) pass ≡ none

  login_wrong :
      (user pass : String) (t : Clock) (a : Auth)
      → check matches dummy (find user conf.users) pass ≡ none
      → is_locked a source t.test ≡ false
      → login matches dummy encode mac conf user pass source t a ≡ (
        (register_failure conf source t.failure a).0,
        invalid (register_failure conf source t.failure a).1,
      )
  unfolding login
  login_wrong user pass t a w o = rw (o, w, finish)

  -- Up to the last attempt, wrong logins are refused one by one, and no lockout is caused.
  logins-below :
      (k : ℕ) (ts : List (String × String × Clock)) (a : Auth)
      → All IsWrong ts
      → k + length ts < conf.max_failures
      → HasFailed source k a
      → All (λ r. r ≡ invalid false) (logins ts a).1
        × HasFailed source (k + length ts) (logins ts a).0
  unfolding logins
  logins-below k [] a w h f = (tt, subst (λ n. HasFailed source n a) (omega arith) f)
  logins-below k ((user, pass, t) ∷ rest) a w h f =
      let (quiet, f') = register_failure-below conf source k t.failure a (omega arith) f in
      let (all_quiet, f'') =
        logins-below (k + 1) rest (register_failure conf source t.failure a).0 w.1 (omega arith)
          f' in
      rw (login_wrong user pass t a w.0 (f.open_at t.test)) (
        (ap invalid quiet, all_quiet),
        subst (λ n. HasFailed source n (logins rest (register_failure conf source t.failure a).0).0)
            (omega arith) f'',
      )

  -- The configured number of wrong logins in a row locks the address out: those before the last are
  -- refused and cause no lockout, the last one reports the lockout, and from then the address is locked
  -- exactly until the configured duration after that failure.
  pub lockout :
      (ts : List (String × String × Clock)) (user pass : String) (t : Clock) (a : Auth)
      → All IsWrong ts
      → IsWrong (user, pass, t)
      → length ts + 1 ≡ conf.max_failures
      → HasFailed source 0 a
      → let before = logins ts a in
        let after = login matches dummy encode mac conf user pass source t before.0 in
        All (λ r. r ≡ invalid false) before.1
        × (after.1 ≡ invalid true)
        × ((now : ℕ) → is_locked after.0 source now ≡ ltb now (t.failure + conf.lockout_for))
  lockout ts user pass t a ws w h f =
      let (quiet, f') = logins-below 0 ts a ws (omega arith) f in
      let (caused, until) =
        register_failure-last conf source (0 + length ts) t.failure (logins ts a).0 (omega arith)
          f' in
      let step = login_wrong user pass t (logins ts a).0 w (f'.open_at t.test) in
      (
        quiet,
        ap (λ x. x.1) step ∙ ap invalid caused,
        λ now. ap (λ (x : Auth × Login). is_locked x.0 source now) step ∙ until now,
      )

  -- While an address is locked out, every login from it is refused, with the right password too, and
  -- nothing changes, so the lockout lasts until its time.
  pub logins_locked :
      (ts : List (String × String × Clock)) (a : Auth)
      → All (λ (x : String × String × Clock). is_locked a source x.2.test ≡ true) ts
      → ((logins ts a).0 ≡ a) × All (λ r. r ≡ locked) (logins ts a).1
  unfolding logins login
  logins_locked [] a h = (refl, tt)
  logins_locked ((user, pass, t) ∷ rest) a h =
      rw (h.0) (let (same, all) = logins_locked rest a h.1 in (same, (refl, all)))

  -- A login from one address does not touch what is recorded of another.
  pub login_isolated :
      (user pass other : String) (t : Clock) (a : Auth)
      → (source == other) ≡ false
      → (login matches dummy encode mac conf user pass source t a).0.fails other ≡ a.fails other
  unfolding login
  login_isolated user pass other t a h = ground arith
