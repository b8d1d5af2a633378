-- ===== src/Revalidate/Outcomes.antt =====
-- revalidate.go: what one revalidation can do to a session, as a step relation, and what many do.
use go_vai_oidc.Prelude.{
  ◌≡◌, refl, ◌∙◌, ◌⊎◌, inl, inr, true, false, Option, none, some, List, [], ◌∷◌, arith, Result, ok,
  err, Bool-cases, subst, err-ne-ok, ok-injective,
}
use go_vai_oidc.Prelude.Int.{ℤ, pos, ◌+ℤ◌, ◌≤ℤ◌, ◌<ℤ◌, leb_ℤ}
use go_vai_oidc.Prelude.Text.{Str, is_empty}
use go_vai_oidc.Errors.{Error}
use go_vai_oidc.Config.{Config}
use go_vai_oidc.User.{User}
use go_vai_oidc.Idp.{Token}
use go_vai_oidc.Auth.{Auth}
use go_vai_oidc.StepUp.Recent.{merge_refreshed_auth_time_never_advances}
use go_vai_oidc.Reresolve.{applied, soft, ended, apply_resolution}
use go_vai_oidc.Session.Payload.{SessionPayload, unix}
use go_vai_oidc.Revalidate.{
  Served, serve, sign_out, unchanged, GrantShared, ResolveShared, Flights, refreshed, stamped,
  retry_later, backed_off, extended, apply_grant, apply_retry, revalidate_at_idp, retry_resolution,
  resolve_retry_due, floor_due, maybe_revalidate, is_session_revoked, transport_backoff,
}

-- One request's revalidation, by what was learnt.
pub data Step (a : Auth) (rand : Option Str) (now : ℤ) (p : SessionPayload) : Served → Type 0 where
  idle : Step a rand now p (unchanged p)
  outage : Step a rand now p (serve a rand (backed_off a.cfg now p))
  revoked : Step a rand now p (sign_out a)
  renewed :
      (fresh : Token) (aut : ℤ)
      → Step a rand now p (serve a rand (stamped a.cfg now (refreshed p fresh aut)))
  renewed_resolved :
      (fresh : Token) (aut : ℤ) (u : User)
      → Step a rand now p
          (serve a rand (stamped a.cfg now (apply_resolution (refreshed p fresh aut) u)))
  deferred :
      (fresh : Token) (aut : ℤ)
      → Step a rand now p (serve a rand (retry_later a.cfg now (refreshed p fresh aut)))
  postponed :
      Step a rand now p
        (serve a rand (record p { resolve_retry_at = unix (now +ℤ transport_backoff a.cfg) }))
  resolved_late :
      (u : User)
      → Step a rand now p (
          serve a rand
            (extended a.cfg (record (apply_resolution p u) { resolve_retry_at = pos 0 })))

module _ (a : Auth) (rand : Option Str) (now : ℤ) (p : SessionPayload) where
  apply_grant-Step : (shared : GrantShared) → Step a rand now p (apply_grant a rand now p shared)
  unfolding apply_grant
  apply_grant-Step (err e) = elim (Bool-cases (is_session_revoked e)) [
    | inl gone ↦ rw gone revoked
    | inr other ↦ rw other outage
  ]
  apply_grant-Step (ok (fresh, aut, none)) = renewed fresh aut
  apply_grant-Step (ok (fresh, aut, some ended)) = revoked
  apply_grant-Step (ok (fresh, aut, some soft)) = deferred fresh aut
  apply_grant-Step (ok (fresh, aut, some (applied u))) = renewed_resolved fresh aut u

  apply_retry-Step : (shared : ResolveShared) → Step a rand now p (apply_retry a rand now p shared)
  unfolding apply_retry
  apply_retry-Step (err e) = idle
  apply_retry-Step (ok ended) = revoked
  apply_retry-Step (ok soft) = postponed
  apply_retry-Step (ok (applied u)) = resolved_late u

  -- Every request's revalidation is one of these steps.
  maybe_revalidate-Step : (f : Flights) → Step a rand now p (maybe_revalidate a f rand now p)
  unfolding maybe_revalidate revalidate_at_idp retry_resolution
  maybe_revalidate-Step f = elim (Bool-cases (leb_ℤ a.cfg.revalidate_interval (pos 0))) [
    | inl off ↦ rw off idle
    | inr on ↦ elim (Bool-cases (floor_due a.cfg p now)) [
      | inl due ↦ elim (Bool-cases (is_empty p.refresh_token)) [
        | inl bare ↦ rw (on, due, bare) idle
        | inr held ↦ rw (on, due, held) (apply_grant-Step _)
      ]
      | inr early ↦ elim (Bool-cases (resolve_retry_due a.cfg p now)) [
        | inl retry ↦ rw (on, early, retry) (apply_retry-Step _)
        | inr not_yet ↦ rw (on, early, not_yet) idle
      ]
    ]
  ]

-- What a session keeps through every step: a known time of authentication never moves forward, a
-- refresh token is never lost, and the sign-in's ID token and origin stay.
pub record Keeps (p q : SessionPayload) : Type 0 where
  pub aut : (p.aut ≤ℤ pos 0) ⊎ ((pos 0 <ℤ q.aut) × (q.aut ≤ℤ p.aut))
  pub refresh_token : (is_empty p.refresh_token ≡ true) ⊎ (is_empty q.refresh_token ≡ false)
  pub src : q.src ≡ p.src
  pub id_token : q.id_token ≡ p.id_token

Keeps-refreshed : (p : SessionPayload) (fresh : Token) (aut : ℤ) → Keeps p (refreshed p fresh aut)
unfolding refreshed
Keeps-refreshed p fresh aut = record {
  aut = ground (arith, merge_refreshed_auth_time_never_advances p.aut aut);
  refresh_token = ground arith;
  src = refl;
  id_token = refl;
}

Keeps-self : (p : SessionPayload) → Keeps p p
Keeps-self p = record {
  aut = ground arith;
  refresh_token = ground arith;
  src = refl;
  id_token = refl;
}

Keeps-trans : {p q r : SessionPayload} → Keeps p q → Keeps q r → Keeps p r
Keeps-trans h k = record {
  aut = ground arith;
  refresh_token = ground arith;
  src = k.src ∙ h.src;
  id_token = k.id_token ∙ h.id_token;
}

-- A change that leaves the time of authentication, the refresh token, the ID token and the origin.
abbrev SameSignIn : SessionPayload → SessionPayload → Type 0
SameSignIn p q =
    (q.aut ≡ p.aut)
    × (q.refresh_token ≡ p.refresh_token)
    × (q.src ≡ p.src)
    × (q.id_token ≡ p.id_token)

Keeps-SameSignIn : {p q r : SessionPayload} → Keeps p q → SameSignIn q r → Keeps p r
Keeps-SameSignIn {r} h (aut, token, src, id) = record {
  aut = rw aut h.aut;
  refresh_token = rw token h.refresh_token;
  src = src ∙ h.src;
  id_token = id ∙ h.id_token;
}

apply_resolution-SameSignIn : (p : SessionPayload) (u : User) → SameSignIn p (apply_resolution p u)
unfolding apply_resolution
apply_resolution-SameSignIn p u = ground arith

Keeps-apply_resolution :
    {p q : SessionPayload} (u : User) → Keeps p q → Keeps p (apply_resolution q u)
Keeps-apply_resolution {p} {q} u h =
    Keeps-SameSignIn {r = apply_resolution q u} h (apply_resolution-SameSignIn q u)

extended-SameSignIn : (cfg : Config) (p : SessionPayload) → SameSignIn p (extended cfg p)
unfolding extended
extended-SameSignIn cfg p = ground arith

Step-Keeps :
    {a : Auth} {rand : Option Str} {now : ℤ} {p : SessionPayload} {s : Served} {q : SessionPayload}
    → Step a rand now p s
    → s.result ≡ ok q
    → Keeps p q
unfolding stamped retry_later backed_off
Step-Keeps {p} idle e = subst (Keeps p) (ok-injective e) (Keeps-self p)
Step-Keeps {p} outage e =
    subst (Keeps p) (ok-injective e) (Keeps-SameSignIn (Keeps-self p) (refl, refl, refl, refl))
Step-Keeps revoked e = absurd (err-ne-ok e)
Step-Keeps {p} (renewed fresh aut) e =
    subst (Keeps p) (ok-injective e)
      (Keeps-SameSignIn (Keeps-refreshed p fresh aut) (refl, refl, refl, refl))
Step-Keeps {p} (renewed_resolved fresh aut u) e = subst (Keeps p) (ok-injective e) (
    Keeps-SameSignIn (Keeps-apply_resolution u (Keeps-refreshed p fresh aut))
      (refl, refl, refl, refl))
Step-Keeps {p} (deferred fresh aut) e =
    subst (Keeps p) (ok-injective e)
      (Keeps-SameSignIn (Keeps-refreshed p fresh aut) (refl, refl, refl, refl))
Step-Keeps {p} postponed e =
    subst (Keeps p) (ok-injective e) (Keeps-SameSignIn (Keeps-self p) (refl, refl, refl, refl))
Step-Keeps {a} {p} (resolved_late u) e = subst (Keeps p) (ok-injective e) (
    Keeps-SameSignIn (Keeps-apply_resolution u (Keeps-self p))
      (extended-SameSignIn a.cfg (record (apply_resolution p u) { resolve_retry_at = pos 0 })))

-- The requests of one browser: each is served at its own time, with its own flights, on the session
-- that the one before left.
pub record Visit : Type 0 where
  pub flights : Flights
  pub rand : Option Str
  pub now : ℤ

unfoldable pub visits : Auth → SessionPayload → List Visit → Result Error SessionPayload
visits a p [] = ok p
visits a p (v ∷ vs) = elim ((maybe_revalidate a v.flights v.rand v.now p).result) [
  | err e ↦ err e
  | ok q ↦ visits a q vs
]

-- However often a session is revalidated, and whatever the provider, the resolver and the flights
-- answer, a session that survives still has a refresh token if it had one, its ID token and origin
-- are those of its sign-in, and a known time of authentication is no later than it was.
pub visits-Keeps :
    (a : Auth) (p : SessionPayload) (vs : List Visit) {q : SessionPayload}
    → visits a p vs ≡ ok q
    → Keeps p q
unfolding visits
visits-Keeps a p [] e = subst (Keeps p) (ok-injective e) (Keeps-self p)
visits-Keeps a p (v ∷ vs) {q} e =
    go (maybe_revalidate a v.flights v.rand v.now p).result refl (λ m. visits-Keeps a m vs)
  where
    go :
        (r : Result Error SessionPayload)
        → (maybe_revalidate a v.flights v.rand v.now p).result ≡ r
        → ((m : SessionPayload) → visits a m vs ≡ ok q → Keeps m q)
        → Keeps p q
    go (err x) e' ih = absurd (err-ne-ok (rw (e', visits) at e))
    go (ok m) e' ih =
        Keeps-trans (Step-Keeps (maybe_revalidate-Step a v.rand v.now p v.flights) e')
          (ih m (rw (e', visits) at e))
