-- ===== src/Auth/Tokens.antt =====
-- auth.go, `sign` and `Verify`: what a token that verifies shows, and that a token just issued does.
use songbird_prototypes.Prelude.{
  ℕ, ◌/◌, ◌≤◌, String, ◌≡◌, sym, subst, inl, inr, Bool, false, ◌||◌, Option, some, [], ◌∷◌, arith,
  eq_iff, eq_refl, eqb, Option-cases, concat,
}
use Prim.Native.Char.{code, Char}
use Prim.Native.String.append
use songbird_prototypes.Model.Types.{Object, UserSpec}
use songbird_prototypes.Model.Durations.{second}
use songbird_prototypes.Model.Objects.{find}
use songbird_prototypes.Auth.{
  Auth, Policy, Session, Clock, welcome, cut_dot, sign, login, verify_parts, verify,
}

-- No character of the text is a dot.
unfoldable pub has_dot : String → Bool
has_dot String.[] = false
has_dot (String.◌∷◌ c s) = eqb (code c) b'.' || has_dot s

-- The dot, as the text of one character, in front of a text.
cut_dot-dot : (q : String) → cut_dot (concat ("." ∷ q ∷ [])) ≡ some ("", q)
unfolding cut_dot
cut_dot-dot q = rw (append.cons _ _ q) (rw (append.nil q))

cut_dot-cons :
    (c : Char) (s p q : String)
    → eqb (code c) b'.' ≡ false
    → cut_dot s ≡ some (p, q)
    → cut_dot (String.◌∷◌ c s) ≡ some (String.◌∷◌ c p, q)
unfolding cut_dot
cut_dot-cons c s p q e h = rw (e, h)

-- A text with no dot is found again in front of the first dot.
cut_dot-concat :
    (p q : String) → has_dot p ≡ false → cut_dot (concat (p ∷ "." ∷ q ∷ [])) ≡ some (p, q)
unfolding has_dot
cut_dot-concat String.[] q h = rw (append.nil (concat ("." ∷ q ∷ []))) (cut_dot-dot q)
cut_dot-concat (String.◌∷◌ c p) q h = rw (append.cons c p (concat ("." ∷ q ∷ []))) (
    cut_dot-cons c (concat (p ∷ "." ∷ q ∷ [])) p q (ground arith)
      (cut_dot-concat p q (ground arith)))

module _ (encode : Session → String) (decode : String → Option Session)
    (mac : String → String) where
  -- What the two codings promise for a session: decoding undoes encoding, and base64 has no dot.
  pub record Coding (s : Session) : Type 0 where
    pub decoded : decode (encode s) ≡ some s
    pub no_dot : has_dot (encode s) ≡ false

  verify-sign :
      (conf : Policy) (now : ℕ) (s : Session) (u : Object UserSpec)
      → Coding s
      → find s.user conf.users ≡ some u
      → now / second ≤ s.exp
      → verify decode mac conf now (sign encode mac s) ≡ some (record s { role = u.spec.role })
  unfolding verify sign
  verify-sign conf now s u coding h fresh =
      rw (cut_dot-concat (encode s) (mac (encode s)) coding.no_dot, verify_parts)
        (rw (eq_refl (mac (encode s)), coding.decoded, verify_parts) (ground arith))

  login_token :
      (matches : String → String → Bool) (dummy : String) (conf : Policy)
      (user pass source token : String) (t : Clock) (a : Auth) (s : Session)
      → (login matches dummy encode mac conf user pass source t a).1 ≡ welcome token s
      → (token ≡ sign encode mac s) × (s.user ≡ user)
  unfolding login
  login_token matches dummy conf user pass source token t a s h = (ground arith, ground arith)

module _ (encode : Session → String) (decode : String → Option Session)
    (mac : String → String) where
  -- The token of a successful login verifies until it expires, under any later configuration in which
  -- the user exists, and gives the session with the user's role of then. Decoding undoes encoding,
  -- and an encoded session has no dot.
  pub verify-login :
      (matches : String → String → Bool) (dummy : String) (conf later : Policy)
      (user pass source token : String) (t : Clock) (a : Auth) (s : Session) (u : Object UserSpec)
      (now : ℕ)
      → Coding encode decode mac s
      → (login matches dummy encode mac conf user pass source t a).1 ≡ welcome token s
      → find user later.users ≡ some u
      → now / second ≤ s.exp
      → verify decode mac later now token ≡ some (record s { role = u.spec.role })
  verify-login matches dummy conf later user pass source token t a s u now coding h found fresh =
      let (issued, named) =
        login_token encode decode mac matches dummy conf user pass source token t a s h in
      rw issued (
        verify-sign encode decode mac later now s u coding
          (subst (λ n. find n later.users ≡ some u) (sym named) found) fresh)

-- A token verifies only if it is a payload and the MAC of that payload, if the session in the payload
-- has not expired, and if its user exists now: the session then has the user's role of now.
pub verify_sound :
    (decode : String → Option Session) (mac : String → String) (conf : Policy) (now : ℕ)
    (token : String) (s : Session)
    → verify decode mac conf now token ≡ some s
    → (payload : String) × (old : Session) × (u : Object UserSpec) × (cut_dot token
        ≡ some (payload, mac payload))
      × (decode payload ≡ some old)
      × (now / second ≤ old.exp)
      × (find old.user conf.users ≡ some u)
      × (s ≡ record old { role = u.spec.role })
unfolding verify
verify_sound decode mac conf now token s h = elim (Option-cases (cut_dot token)) [
  | inl e ↦ absurd (ground (arith, e))
  | inr ((p, sig), e) ↦ elim (Option-cases (decode p)) [
    | inl d ↦ absurd (ground (arith, e, d))
    | inr (old, d) ↦ elim (Option-cases (find old.user conf.users)) [
      | inl f ↦ absurd (ground (arith, e, d, f))
      | inr (u, f) ↦ (
        p,
        old,
        u,
        ground (arith, e, d, f, eq_iff sig (mac p)),
        d,
        ground (arith, e, d, f),
        f,
        ground (arith, e, d, f),
      )
    ]
  ]
]
