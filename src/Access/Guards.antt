-- ===== src/Access/Guards.antt =====
-- What lets a request through, and for how long (internal/api/auth.go).
use duskrun.Base.{
  ℕ, ◌+◌, ◌<◌, ◌≤◌, ◌≡◌, refl, String, Bool, true, false, ◌&&◌, not, Option, none, some, List, [],
  ◌∷◌, ltb, str_eq, ltb→lt, arith, Bool-cases, inl, inr, ◌⊎◌,
}
use duskrun.Model.{Role, at_least}
use duskrun.Access.{
  Session, User, Principal, MfaPolicy, Lookup, session_of, unknown_token, lookup_failed,
  handled_for, session_max_age, slide_expiry, touch, resolve_session, principal_with, person, guard,
  guard_resolved, authorize, policy_covers, mfa_enabled,
}

-- The session's owner may reach the route: the session is live, the account enabled, the role
-- sufficient, and a second factor enrolled where the policy demands one and the route is not part of
-- the enrolment.
pub record Entitled (now : ℕ) (want : Role) (enroll_ok : Bool) (policy : Option MfaPolicy)
    (s : Session) (u : User) : Type 0 where
  pub live : now < s.expires_at
  pub enabled : u.disabled ≡ false
  pub role : at_least u.role want ≡ true
  pub factor :
      (mfa_enabled u ≡ true)
      ⊎ ((p : MfaPolicy) × (policy ≡ some p) × ((policy_covers p u.role && not enroll_ok) ≡ false))

guard_sound :
    (want : Role) (enroll_ok : Bool) (q p : Principal)
    → guard want enroll_ok q ≡ handled_for p
    → (at_least q.role want ≡ true) × ((q.enroll_required && not enroll_ok) ≡ false)
guard_sound want enroll_ok q p h = (ground (arith, h), ground (arith, h))

principal_sound :
    (now : ℕ) (policy : Option MfaPolicy) (want : Role) (enroll_ok : Bool) (p : Principal)
    (s : Session) (u : User) (b : Bool)
    → now < s.expires_at
    → u.disabled ≡ false
    → mfa_enabled u ≡ b
    → guard_resolved want enroll_ok (principal_with policy u b) ≡ handled_for p
    → Entitled now want enroll_ok policy s u
principal_sound now policy want enroll_ok p s u true live enabled m h = record {
  live = live;
  enabled = enabled;
  role = (guard_sound want enroll_ok (person u false) p h).0;
  factor = inl m;
}
principal_sound now none want enroll_ok p s u false live enabled m h = absurd (ground (arith, h))
principal_sound now (some q) want enroll_ok p s u false live enabled m h =
    let sound = guard_sound want enroll_ok (person u (policy_covers q u.role)) p h in
    record { live = live; enabled = enabled; role = sound.0; factor = inr (q, refl, sound.1) }

lookup_sound :
    (now : ℕ) (policy : Option MfaPolicy) (want : Role) (enroll_ok : Bool) (p : Principal)
    (l : Lookup)
    → guard_resolved want enroll_ok (resolve_session now policy l) ≡ handled_for p
    → (s : Session) × (u : User) × (l ≡ session_of s u) × Entitled now want enroll_ok policy s u
unfolding resolve_session
lookup_sound now policy want enroll_ok p unknown_token h = ground arith
lookup_sound now policy want enroll_ok p lookup_failed h = ground arith
lookup_sound now policy want enroll_ok p (session_of s u) h =
    elim (Bool-cases (ltb now s.expires_at)) [
      | inr e ↦ absurd (ground (arith, e, h))
      | inl e ↦ elim (Bool-cases u.disabled) [
        | inl f ↦ absurd (ground (arith, e, f, h))
        | inr f ↦ (
          s,
          u,
          refl,
          principal_sound now policy want enroll_ok p s u (mfa_enabled u)
              (ltb→lt now s.expires_at e) f refl (simp (e, f) at h),
        )
      ]
    ]

-- A request that is not made with the static token reaches its handler only with the token of a
-- session whose owner is entitled to the route.
pub authorize_sound :
    (static : String) (now : ℕ) (policy : Option MfaPolicy) (lookup : String → Lookup) (want : Role)
    (enroll_ok : Bool) (token : String) (p : Principal)
    → str_eq token static ≡ false
    → authorize static now policy lookup want enroll_ok token ≡ handled_for p
    → (s : Session) × (u : User) × (lookup token ≡ session_of s u)
      × Entitled now want enroll_ok policy s u
unfolding authorize resolve_session
authorize_sound static now policy lookup want enroll_ok token p n h =
    elim (Bool-cases (str_eq token "")) [
      | inl e ↦ absurd (ground (arith, e, h))
      | inr e ↦ elim (Bool-cases (str_eq static "")) [
        | inl g ↦ lookup_sound now policy want enroll_ok p (lookup token) (simp (e, g, n) at h)
        | inr g ↦ lookup_sound now policy want enroll_ok p (lookup token) (simp (e, g, n) at h)
      ]
    ]

-- However often a session is used, and whenever, it ends at its maximal age: its expiry stays at most
-- that far from its creation.
abbrev pub touch_all : List (Bool × ℕ) → Session → Session
touch_all [] s = s
touch_all (t ∷ ts) s = touch_all ts (touch t.0 t.1 s)

touch_created :
    (succeeds : Bool) (now : ℕ) (s : Session) → (touch succeeds now s).created_at ≡ s.created_at
unfolding touch
touch_created succeeds now s = ground arith

touch_expires :
    (succeeds : Bool) (now : ℕ) (s : Session)
    → s.expires_at ≤ s.created_at + session_max_age
    → (touch succeeds now s).expires_at ≤ s.created_at + session_max_age
unfolding touch slide_expiry
touch_expires succeeds now s h = ground arith

pub touch_all_expires :
    (ts : List (Bool × ℕ)) (s : Session)
    → s.expires_at ≤ s.created_at + session_max_age
    → (touch_all ts s).expires_at ≤ s.created_at + session_max_age
touch_all_expires [] s h = h
touch_all_expires (t ∷ ts) s h =
    let created = touch_created t.0 t.1 s in
    let expires = touch_expires t.0 t.1 s h in
    omega (arith, created, touch_all_expires ts (touch t.0 t.1 s) (omega (arith, created, expires)))
