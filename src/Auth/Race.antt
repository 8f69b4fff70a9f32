-- ===== src/Auth/Race.antt =====
-- auth.go, `Login` with several requests from one address at once: the mutex is released while the
-- password is compared, so requests that were let in before a lockout end after it.
use songbird_prototypes.Prelude.{
  ℕ, suc, ◌+◌, ◌<◌, String, ◌≡◌, refl, ◌∙◌, true, false, arith, eq_refl,
}
use songbird_prototypes.Auth.{Auth, Policy, is_locked, register_failure, register_success}
use songbird_prototypes.Auth.Lockout.{HasFailed, register_failure-last}

-- What Auth records, and how many requests from the address compare a password now.
pub record World : Type 0 where
  pub auth : Auth
  pub comparing : ℕ

module _ (conf : Policy) (source : String) where
  pub data Step (w : World) : World → Type 0 where
    let_in :
        {v : World} (now : ℕ)
        → is_locked w.auth source now ≡ false
        → v ≡ record w { comparing = suc w.comparing }
        → Step w v
    refused :
        {v : World} (k now : ℕ)
        → w.comparing ≡ suc k
        → v ≡ record { auth = (register_failure conf source now w.auth).0; comparing = k }
        → Step w v
    granted :
        {v : World} (k : ℕ)
        → w.comparing ≡ suc k
        → v ≡ record { auth = register_success source w.auth; comparing = k }
        → Step w v

  pub data Reach (w : World) : World → Type 0 where
    here : Reach w w
    next : {u v : World} → Reach w u → Step u v → Reach w v

  -- A failure that is recorded during a lockout starts a new count, and the lockout is gone.
  unlocked :
      (now t : ℕ) (a : Auth)
      → 1 < conf.max_failures
      → is_locked a source now ≡ true
      → is_locked (register_failure conf source now a).0 source t ≡ false
  unfolding is_locked register_failure
  unlocked now t a h k = ground (arith, eq_refl source)

  -- With a threshold above 1, when one failure is missing to a lockout, two requests that are let in
  -- together and both fail, the second while the first one's lockout lasts, leave the address not
  -- locked out at any time: the lockout that the first of them caused is lost.
  pub lockout_lost :
      (k first second : ℕ) (a : Auth)
      → 1 < conf.max_failures
      → k + 1 ≡ conf.max_failures
      → HasFailed source k a
      → second < first + conf.lockout_for
      → let locked = (register_failure conf source first a).0 in
        let after = (register_failure conf source second locked).0 in
        Reach (record { auth = a; comparing = 0 }) (record { auth = after; comparing = 0 })
        × (is_locked locked source second ≡ true)
        × ((t : ℕ) → is_locked after source t ≡ false)
  lockout_lost k first second a many h f early =
      let (caused, until) = register_failure-last conf source k first a h f in
      let held : is_locked (register_failure conf source first a).0 source second ≡ true =
        until second ∙ ground arith in
      (
        next
            (next
              (next (next here (let_in first (f.open_at first) refl))
                (let_in first (f.open_at first) refl))
              (refused 1 first refl refl))
            (refused 0 second refl refl),
        held,
        λ t. unlocked second t (register_failure conf source first a).0 many held,
      )
