-- ===== src/Handlers/Updates.antt =====
-- auth.go: what the operations on the session of a request leave for the next call and the next
-- request.
use go_vai_oidc.Prelude.{
  Bool, true, false, Option, none, some, List, [], ◌≡◌, refl, ap, ◌∙◌, ◌⊎◌, inl, inr, Result, ok,
  err, err-ne-ok, length,
}
use go_vai_oidc.Prelude.Int.{ℤ, ◌<ℤ◌}
use go_vai_oidc.Prelude.Text.{Str}
use go_vai_oidc.Errors.{Error}
use go_vai_oidc.Cookie.{SetCookie, Request}
use go_vai_oidc.Cookie.Browser.{Jar, receive}
use go_vai_oidc.User.{User}
use go_vai_oidc.Auth.{Auth}
use go_vai_oidc.Session.Payload.{SessionPayload, unix, time_or_zero, to_user, from_user}
use go_vai_oidc.Session.Crypto.{IsFaithful, nonce_size}
use go_vai_oidc.Session.Store.{set_session_cookie, read_session_cookie}
use go_vai_oidc.Session.RoundTrip.{read-set_session_cookie}
use go_vai_oidc.Handlers.{
  Context, shared_with, share, persisted, write_update, update_session, changed_or_not,
  update_session_if, current_session,
}

persisted-ok :
    {A : Type 0} (ctx : Context) (x y : A) (m : Result Error (List SetCookie))
    → (persisted ctx x m).result ≡ ok y
    → m ≡ ok (persisted ctx x m).cookies
persisted-ok ctx x y (ok cs) h = refl
persisted-ok ctx x y (err e) h = absurd (err-ne-ok h)

persisted-context :
    {A : Type 0} (ctx : Context) (x : A) (m : Result Error (List SetCookie))
    → (persisted ctx x m).context ≡ ctx
persisted-context ctx x (ok cs) = refl
persisted-context ctx x (err e) = refl

update_session-session :
    (a : Auth) (now : ℤ) (ctx : Context) (r : Request) (rand : Option Str) (f : User → User)
    (p : SessionPayload)
    → ctx.session ≡ some (ok p)
    → (update_session a now rand ctx r (some f)).context.session
      ≡ some (ok (from_user p (f (to_user p))))
unfolding update_session write_update current_session
update_session-session a now ctx r rand f p h =
    let q = from_user p (f (to_user p)) in
    let held : current_session a now ctx r ≡ ok p = rw h refl in
    rw held (
      ap (λ c. c.session)
        (persisted-context (share ctx q) tt
          (set_session_cookie a.crypto a.session_key rand a.cfg q))
      ∙ ap (shared_with q) h)

persisted-same :
    {A B : Type 0} (ctx : Context) (x : A) (y : B) (m : Result Error (List SetCookie))
    → ((persisted ctx x m).cookies ≡ (persisted ctx y m).cookies)
      × ((persisted ctx x m).context ≡ (persisted ctx y m).context)
persisted-same ctx x y (ok cs) = (refl, refl)
persisted-same ctx x y (err e) = (refl, refl)

-- `q` is the session `p` with the user `u`: every field of the user that a session keeps is that of
-- `u`, all else is that of `p`.
pub record IsUpdated (p : SessionPayload) (u : User) (q : SessionPayload) : Type 0 where
  pub sub : q.sub ≡ u.sub
  pub email : q.email ≡ u.email
  pub verified : q.ev ≡ u.email_verified
  pub name : q.name ≡ u.name
  pub org : q.org_id ≡ u.org_id
  pub memberships : q.mbs ≡ u.memberships
  pub claims : q.claims ≡ u.claims
  pub roles : q.rls ≡ u.realm_roles
  pub sid : q.sid ≡ u.session_id
  pub exp : q.exp ≡ p.exp
  pub id_token : q.id_token ≡ p.id_token
  pub access_token : q.access_token ≡ p.access_token
  pub access_token_exp : q.access_token_exp ≡ p.access_token_exp
  pub refresh_token : q.refresh_token ≡ p.refresh_token
  pub last_validated : q.last_validated ≡ p.last_validated
  pub retry : q.resolve_retry_at ≡ p.resolve_retry_at
  pub aut : q.aut ≡ p.aut
  pub src : q.src ≡ p.src

from_user-IsUpdated : (p : SessionPayload) (u : User) → IsUpdated p u (from_user p u)
unfolding from_user
from_user-IsUpdated p u = record {
  sub = refl;
  email = refl;
  verified = refl;
  name = refl;
  org = refl;
  memberships = refl;
  claims = refl;
  roles = refl;
  sid = refl;
  exp = refl;
  id_token = refl;
  access_token = refl;
  access_token_exp = refl;
  refresh_token = refl;
  last_validated = refl;
  retry = refl;
  aut = refl;
  src = refl;
}

-- The user that a handler is given of a session: the person as the session holds it, with the time
-- of authentication that it knows and no landing.
to_user-shown :
    (p : SessionPayload) (u : User)
    → to_user (from_user p u) ≡ record u { auth_time = time_or_zero p.aut; landing = none }
unfolding to_user from_user
to_user-shown p u = refl

module _ (a : Auth) (now : ℤ) (ctx : Context) (r : Request) where
  -- A session update that succeeds is what the next request before the session's expiry reads,
  -- whatever older cookies the browser holds: the session with every field of the mutated user that a session keeps, and all
  -- else, expiry, tokens, anchor, time of authentication and origin, as it was. The next handler is
  -- given the mutated user, with the session's time of authentication and no landing. The codec
  -- laws and a nonce of the right size are assumed.
  pub update_session-read :
      (nonce : Str) (mutate : User → User) (p : SessionPayload) (later : ℤ) (jar : Jar)
      → let q = from_user p (mutate (to_user p)) in
        let done = update_session a now (some nonce) ctx r (some mutate) in
        IsFaithful a.crypto a.session_key q
        → length nonce ≡ nonce_size
        → unix later <ℤ p.exp
        → current_session a now ctx r ≡ ok p
        → done.result ≡ ok tt
        → (read_session_cookie a.crypto a.session_key later a.cfg.cookie_name
              (receive (unix later) done.cookies jar)
            ≡ ok q)
          × IsUpdated p (mutate (to_user p)) q
          × (to_user q
              ≡ record (mutate (to_user p)) { auth_time = time_or_zero p.aut; landing = none })
  unfolding update_session write_update
  update_session-read nonce mutate p later jar law size live held h =
      let q = from_user p (mutate (to_user p)) in
      let wrote =
        persisted-ok (share ctx q) tt tt
          (set_session_cookie a.crypto a.session_key (some nonce) a.cfg q) (rw held at h) in
      (
        rw held (
            read-set_session_cookie a.crypto a.session_key nonce a.cfg q later jar law size
              (unfold from_user in live) wrote),
        from_user-IsUpdated p (mutate (to_user p)),
        to_user-shown p (mutate (to_user p)),
      )

  -- A second update on the same request builds on the first: it starts from the payload that the
  -- first one left in the context, even when the first one's cookie could not be written.
  pub update_session-compounds :
      (rand rand' : Option Str) (f g : User → User) (p : SessionPayload)
      → ctx.session ≡ some (ok p)
      → let first = update_session a now rand ctx r (some f) in
        (update_session a now rand' first.context r (some g)).context.session
        ≡ some (
            ok
              (from_user (from_user p (f (to_user p))) (g (to_user (from_user p (f (to_user p)))))))
  update_session-compounds rand rand' f g p h =
      update_session-session a now (update_session a now rand ctx r (some f)).context r rand' g
        (from_user p (f (to_user p))) (update_session-session a now ctx r rand f p h)

  -- UpdateSessionIf is UpdateSession when the mutation reports a change; when it reports none,
  -- nothing is written and the context stays.
  pub update_session_if-agrees :
      (rand : Option Str) (mutate : User → User × Bool) (p : SessionPayload)
      → current_session a now ctx r ≡ ok p
      → let done = update_session_if a now rand ctx r (some mutate) in
        let plain = update_session a now rand ctx r (some (λ u. (mutate u).0)) in
        (((mutate (to_user p)).1 ≡ true)
          × (done.cookies ≡ plain.cookies)
          × (done.context ≡ plain.context))
        ⊎ (((mutate (to_user p)).1 ≡ false)
            × (done.cookies ≡ [])
            × (done.context ≡ ctx)
            × (done.result ≡ ok false))
  unfolding update_session_if update_session write_update
  update_session_if-agrees rand mutate p h = rw h (go (mutate (to_user p)))
    where
      go :
          (m : User × Bool)
          → ((m.1 ≡ true)
              × ((changed_or_not a rand ctx p m).cookies
                  ≡ (write_update a rand ctx (from_user p m.0) (tt {0})).cookies)
              × ((changed_or_not a rand ctx p m).context
                  ≡ (write_update a rand ctx (from_user p m.0) (tt {0})).context))
            ⊎ ((m.1 ≡ false)
                × ((changed_or_not a rand ctx p m).cookies ≡ [])
                × ((changed_or_not a rand ctx p m).context ≡ ctx)
                × ((changed_or_not a rand ctx p m).result ≡ ok false))
      go (u, true) =
          let (wrote, left) =
            persisted-same (share ctx (from_user p u)) true tt
              (set_session_cookie a.crypto a.session_key rand a.cfg (from_user p u)) in
          inl (refl, wrote, left)
      go (u, false) = inr (refl, refl, refl, refl)
