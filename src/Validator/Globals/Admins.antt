-- ===== src/Validator/Globals/Admins.antt =====
-- validator.go, `users`: an appliance that passes has a User with the admin Role.
use songbird_prototypes.Prelude.{
  ◌≡◌, refl, inl, inr, true, ◌&&◌, not, List, [], ◌∷◌, arith, ◌==◌, eq_iff, Bool-cases,
}
use mathlib.Core.List.{Memᴰ}
use songbird_prototypes.Model.Types.{Object, UserSpec}
use songbird_prototypes.Validator.Checks.{Env, done, at_file, when}
use songbird_prototypes.Validator.Checks.Passing.{
  Passes, Passes-if, Passes-second, Passes-err, Passes-return,
}
use songbird_prototypes.Validator.Globals.{has_admin, users}

pub HasAdmin : List (Object UserSpec) → Type 0
HasAdmin us = (u : Object UserSpec) × Memᴰ u us × (u.spec.role ≡ "admin")

has_admin-HasAdmin : (us : List (Object UserSpec)) → has_admin us ≡ true → HasAdmin us
unfolding has_admin HasAdmin
has_admin-HasAdmin [] h = cc
has_admin-HasAdmin (u ∷ us) h = elim (Bool-cases (u.spec.role == "admin")) [
  | inl e ↦ (u, Memᴰ.head refl, (eq_iff u.spec.role "admin").0 e)
  | inr e ↦ let (v, m, r) = has_admin-HasAdmin us (rw e at h) in (v, Memᴰ.tail m, r)
]

pub users-Passes :
    (env : Env) → env.appliance ≡ true → Passes (users env) (λ u. HasAdmin env.t.users)
unfolding users when
users-Passes env a =
    Passes-if (λ u. HasAdmin env.t.users) (env.appliance && not (has_admin env.t.users)) _ done
      (λ e.
        Passes-second (λ u. HasAdmin env.t.users) (at_file "users/") _
          (Passes-err (λ u. HasAdmin env.t.users) _ _ _ _))
      (λ e.
        Passes-return (λ u. HasAdmin env.t.users) tt
          (has_admin-HasAdmin env.t.users (ground (arith, a, e))))
