-- ===== src/Handlers.antt =====
-- auth.go: the session middleware, the operations on the session of a request, the liveness
-- endpoint and the logout; user.go: the request's context. The payload that the middleware leaves in
-- the context is shared by every later call on the request, so an operation answers the context
-- that it leaves.
mod Logout
pub mod Surfaces
pub mod Updates
pub mod Tokens
pub mod Issued
use go_vai_oidc.Prelude.{
  ℕ, Bool, true, false, not, Option, none, some, List, [], ◌∷◌, ◌++◌, if◌then◌else◌, Result, ok,
  err, ◌>>=◌,
}
use go_vai_oidc.Prelude.Int.{ℤ, pos}
use go_vai_oidc.Prelude.Text.{Str, codes, str_eq, is_empty}
use go_vai_oidc.Errors.{Error, just, session_invalid, tokens_not_retained}
use go_vai_oidc.Config.{Config}
use go_vai_oidc.Cookie.{SetCookie, Request}
use go_vai_oidc.User.{User}
use go_vai_oidc.Idp.{Token, refreshed_token}
use go_vai_oidc.Auth.{Auth}
use go_vai_oidc.Redirect.{Urls}
use go_vai_oidc.Session.Payload.{SessionPayload, unix, to_user, from_user, session_source_grant}
use go_vai_oidc.Session.Store.{set_session_cookie, clear_session_cookie}
use go_vai_oidc.Revalidate.{Served, Flights, maybe_revalidate, write_session}
use go_vai_oidc.Flow.{
  SessionStatus, Answer, redirect, status, Response, session_of, unauthenticated,
}
use go_vai_oidc.Login.{issued}
unfoldable pub use go_vai_oidc.Handlers.Logout.{handle_logout}

-- What the middleware leaves for the handlers: the user, and the payload that the request is
-- served with or the reason why there is none (`sessionHolder`).
pub record Context : Type 0 where
  pub user : Option User
  pub session : Option (Result Error SessionPayload)

-- A request that the middleware answers itself, or passes on with its context.
pub data Gate : Type 0 where
  refused : Response → Gate
  passed : List SetCookie → Context → Gate

abbrev pub no_status : SessionStatus
no_status = record { authenticated = false; sub = []; expires_at = pos 0; revalidated_at = pos 0 }

abbrev pub status_of : SessionPayload → SessionStatus
status_of p = record {
  authenticated = true;
  sub = p.sub;
  expires_at = p.exp;
  revalidated_at = p.last_validated;
}

abbrev pub with_session : SessionPayload → Context
with_session p = record { user = some (to_user p); session = some (ok p) }

module _ (a : Auth) (flights : Flights) (rand : Option Str) (now : ℤ) where
  -- The session that a request holds, revalidated.
  abbrev pub examine : Result Error SessionPayload → Served
  examine (err e) = record { result = err e; cookies = [] }
  examine (ok p) = maybe_revalidate a flights rand now p

  abbrev pub gate_required : Request → List SetCookie → Result Error SessionPayload → Gate
  gate_required r cs (err e) = refused (record { cookies = cs; answer = unauthenticated a r })
  gate_required r cs (ok p) = passed cs (with_session p)

  -- `RequireSession`
  unfoldable pub require_session : Request → Gate
  require_session r = let s = examine (session_of a now r) in gate_required r s.cookies s.result

  abbrev pub gate_optional : Context → List SetCookie → Result Error SessionPayload → Gate
  gate_optional ctx cs (err e) = passed cs (record ctx { session = some (err e) })
  gate_optional ctx cs (ok p) = passed cs (with_session p)

  -- `OptionalSession`
  unfoldable pub optional_session : Context → Request → Gate
  optional_session ctx r =
      let s = examine (session_of a now r) in gate_optional ctx s.cookies s.result

  abbrev pub liveness : Result Error SessionPayload → Answer
  liveness (err e) = status 401 no_status
  liveness (ok p) = status 200 (status_of p)

  -- `handleSession`
  unfoldable pub handle_session : Request → Response
  handle_session r =
      let s = examine (session_of a now r) in
      record { cookies = s.cookies; answer = liveness s.result }

-- `currentSession`
unfoldable pub current_session : Auth → ℤ → Context → Request → Result Error SessionPayload
current_session a now ctx r = elim ctx.session [ none ↦ session_of a now r | some held ↦ held ]

abbrev pub shared_with :
    SessionPayload → Option (Result Error SessionPayload) → Option (Result Error SessionPayload)
shared_with q none = none
shared_with q (some (err e)) = some (err e)
shared_with q (some (ok p)) = some (ok q)

-- The context after a payload was changed in place: a payload that the request's cookie alone holds
-- is the caller's own.
abbrev pub share : Context → SessionPayload → Context
share ctx q = record ctx { session = shared_with q ctx.session }

-- What an operation leaves and answers.
pub record Done (A : Type 0) : Type 0 where
  pub context : Context
  pub cookies : List SetCookie
  pub result : Result Error A

abbrev pub failed_with : {A : Type 0} → Context → Error → Done A
failed_with ctx e = record { context = ctx; cookies = []; result = err e }

abbrev persisted : {A : Type 0} → Context → A → Result Error (List SetCookie) → Done A
persisted ctx x (err e) = failed_with ctx e
persisted ctx x (ok cs) = record { context = ctx; cookies = cs; result = ok x }

-- The payload is written into the request's session before it is set as a cookie.
unfoldable pub write_update :
    {A : Type 0} → Auth → Option Str → Context → SessionPayload → A → Done A
write_update a rand ctx q x =
    persisted (share ctx q) x (set_session_cookie a.crypto a.session_key rand a.cfg q)

abbrev pub update_of :
    Auth → Option Str → Context → (User → User) → Result Error SessionPayload → Done (Unit {0})
update_of a rand ctx mutate (err e) = failed_with ctx e
update_of a rand ctx mutate (ok p) = write_update a rand ctx (from_user p (mutate (to_user p))) tt

-- `UpdateSession`; a nil mutation does nothing.
unfoldable pub update_session :
    Auth → ℤ → Option Str → Context → Request → Option (User → User) → Done (Unit {0})
update_session a now rand ctx r none = record { context = ctx; cookies = []; result = ok tt }
update_session a now rand ctx r (some mutate) =
    update_of a rand ctx mutate (current_session a now ctx r)

abbrev changed_or_not : Auth → Option Str → Context → SessionPayload → User × Bool → Done Bool
changed_or_not a rand ctx p (u, false) = record { context = ctx; cookies = []; result = ok false }
changed_or_not a rand ctx p (u, true) = write_update a rand ctx (from_user p u) true

abbrev pub update_if_of :
    Auth → Option Str → Context → (User → User × Bool) → Result Error SessionPayload → Done Bool
update_if_of a rand ctx mutate (err e) = failed_with ctx e
update_if_of a rand ctx mutate (ok p) = changed_or_not a rand ctx p (mutate (to_user p))

-- `UpdateSessionIf`
unfoldable pub update_session_if :
    Auth → ℤ → Option Str → Context → Request → Option (User → User × Bool) → Done Bool
update_session_if a now rand ctx r none = record { context = ctx; cookies = []; result = ok false }
update_session_if a now rand ctx r (some mutate) =
    update_if_of a rand ctx mutate (current_session a now ctx r)

-- `Session`
unfoldable pub session_user : Auth → ℤ → Context → Request → Result Error User
session_user a now ctx r = current_session a now ctx r >>= λ p. ok (to_user p)

-- `IssueSession`
unfoldable pub issue_session :
    Auth → ℤ → Option Str → Option User → Str → Result Error (List SetCookie)
issue_session a now rand none raw = err (just session_invalid)
issue_session a now rand (some u) raw =
    set_session_cookie a.crypto a.session_key rand a.cfg
      (from_user (issued a.cfg now raw session_source_grant u.auth_time) u)

-- The payload with the tokens of a refresh.
unfoldable pub rotated : SessionPayload → Token → SessionPayload
rotated p fresh = record p {
  access_token = fresh.access_token;
  access_token_exp = unix fresh.expiry;
  refresh_token = if is_empty fresh.refresh_token then p.refresh_token else fresh.refresh_token;
}

abbrev pub token_of : Auth → Option Str → Context → SessionPayload → Result Error Token → Done Str
token_of a rand ctx p (err e) = failed_with ctx e
token_of a rand ctx p (ok fresh) =
    if str_eq fresh.access_token p.access_token
    then record { context = ctx; cookies = []; result = ok fresh.access_token }
    else record {
      context = share ctx (rotated p fresh);
      cookies = write_session a rand (rotated p fresh);
      result = ok fresh.access_token;
    }

abbrev pub access_of : Auth → Option Str → Context → Result Error SessionPayload → Done Str
access_of a rand ctx (err e) = failed_with ctx e
access_of a rand ctx (ok p) =
    if is_empty p.access_token
    then failed_with ctx (just tokens_not_retained)
    else token_of a rand ctx p
        (refreshed_token a.idp p.access_token p.refresh_token p.access_token_exp)

-- `AccessToken`; a failure to persist is not fatal.
unfoldable pub access_token : Auth → ℤ → Option Str → Context → Request → Done Str
access_token a now rand ctx r =
    if a.cfg.retain_tokens
    then access_of a rand ctx (current_session a now ctx r)
    else failed_with ctx (just tokens_not_retained)
