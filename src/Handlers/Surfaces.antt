-- ===== src/Handlers/Surfaces.antt =====
-- auth.go: how the middleware and the liveness endpoint decide whether a request has a session.
use go_vai_oidc.Prelude.{
  Bool, true, false, if◌then◌else◌, Option, some, List, ◌≡◌, refl, ◌⊎◌, inl, inr, err, Result-cases,
}
use go_vai_oidc.Prelude.Int.{ℤ}
use go_vai_oidc.Prelude.Text.{Str}
use go_vai_oidc.Errors.{Error, just, tokens_not_retained}
use go_vai_oidc.Cookie.{SetCookie, Request}
use go_vai_oidc.Auth.{Auth}
use go_vai_oidc.Session.Payload.{SessionPayload}
use go_vai_oidc.Revalidate.{Flights}
use go_vai_oidc.Flow.{status, unauthenticated}
use go_vai_oidc.Handlers.{
  Context, refused, passed, with_session, no_status, status_of, require_session, optional_session,
  handle_session, examine, current_session, update_session, update_session_if, access_token,
  session_user, failed_with,
}
use go_vai_oidc.Flow.{session_of}
use go_vai_oidc.User.{User}

module _ (a : Auth) (flights : Flights) (rand : Option Str) (now : ℤ) (ctx : Context)
    (r : Request) where
  abbrev pub Admits : List SetCookie → SessionPayload → Type 0
  Admits cs p =
      (require_session a flights rand now r ≡ passed cs (with_session p))
      × (optional_session a flights rand now ctx r ≡ passed cs (with_session p))
      × (handle_session a flights rand now r
          ≡ record { cookies = cs; answer = status 200 (status_of p) })

  abbrev pub Refuses : List SetCookie → Error → Type 0
  Refuses cs e =
      (require_session a flights rand now r
        ≡ refused (record { cookies = cs; answer = unauthenticated a r }))
      × (optional_session a flights rand now ctx r
          ≡ passed cs (record ctx { session = some (err e) }))
      × (handle_session a flights rand now r
          ≡ record { cookies = cs; answer = status 401 no_status })

  -- For every request either one session is served by RequireSession and OptionalSession and
  -- reported with status 200 by the liveness endpoint, with the same cookies written by all three;
  -- or RequireSession refuses, OptionalSession passes the request on with the reason in its
  -- context, and the liveness endpoint answers 401, again with the same cookies.
  pub surfaces_agree :
      (cs : List SetCookie) × (((p : SessionPayload) × Admits cs p) ⊎ ((e : Error) × Refuses cs e))
  unfolding require_session optional_session handle_session
  surfaces_agree =
      let s = examine a flights rand now (session_of a now r) in
      elim (Result-cases s.result) [
        | inl (p, e) ↦ (s.cookies, inl (p, rw e (refl, refl, refl)))
        | inr (d, e) ↦ (s.cookies, inr (d, rw e (refl, refl, refl)))
      ]

  -- When OptionalSession has found that a request has no session, a session revoked on that very
  -- request included, no later operation on the request brings it back from the request's cookie:
  -- each answers the middleware's error, AccessToken without retention its own one, writes no
  -- cookie and leaves the context.
  pub optional_session-no_resurrection :
      (mutate : User → User) (mutate_if : User → User × Bool) {e : Error}
      → (examine a flights rand now (session_of a now r)).result ≡ err e
      → (cs : List SetCookie) × (left : Context) × (optional_session a flights rand now ctx r
          ≡ passed cs left)
        × (update_session a now rand left r (some mutate) ≡ failed_with left e)
        × (update_session_if a now rand left r (some mutate_if) ≡ failed_with left e)
        × (session_user a now left r ≡ err e)
        × (access_token a now rand left r
            ≡ failed_with left (if a.cfg.retain_tokens then e else just tokens_not_retained))
  unfolding optional_session update_session update_session_if session_user access_token
      current_session
  optional_session-no_resurrection mutate mutate_if {e} h = (
    (examine a flights rand now (session_of a now r)).cookies,
    record ctx { session = some (err e) },
    rw h refl,
    refl,
    refl,
    refl,
    of_retention a.cfg.retain_tokens,
  )
    where
      held : Context
      held = record ctx { session = some (err e) }

      of_retention :
          (b : Bool)
          → (if b
              then failed_with {A = Str} held e
              else failed_with held (just tokens_not_retained))
            ≡ failed_with held (if b then e else just tokens_not_retained)
      of_retention true = refl
      of_retention false = refl
