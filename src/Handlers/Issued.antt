-- ===== src/Handlers/Issued.antt =====
-- auth.go: the sessions that a login and IssueSession begin and the logout that ends one, as the
-- browser's next request shows them.
use go_vai_oidc.Prelude.{
  Bool, true, false, Option, some, List, ◌≡◌, ◌≢◌, refl, sym, ◌∙◌, ok, err, ok-injective, length,
}
use go_vai_oidc.Prelude.Int.{ℤ, ◌<ℤ◌, ◌+ℤ◌}
use go_vai_oidc.Prelude.Text.{Str}
use go_vai_oidc.Errors.{just, no_session}
use go_vai_oidc.Cookie.{SetCookie, Request}
use go_vai_oidc.Cookie.Browser.{Jar, receive}
use go_vai_oidc.User.{User}
use go_vai_oidc.Auth.{Auth}
use go_vai_oidc.Session.Payload.{
  SessionPayload, unix, from_user, is_grant_minted, session_source_grant,
}
use go_vai_oidc.Session.Crypto.{IsFaithful, nonce_size}
use go_vai_oidc.Session.Store.{read_session_cookie}
use go_vai_oidc.Session.Clear.{clear_session_cookie-no_session}
use go_vai_oidc.Session.RoundTrip.{read-set_session_cookie}
use go_vai_oidc.Flow.{session_of, verdict, signed_out}
use go_vai_oidc.Sync.{handle_sync_callback}
use go_vai_oidc.Sync.Verdicts.{signed_out_iff}
use go_vai_oidc.Login.{SignedIn, issued, login_outcome, handle_login_callback}
use go_vai_oidc.Login.Sound.{login_outcome-Checked}
use go_vai_oidc.Handlers.{issue_session, handle_logout}

module _ (a : Auth) (now : ℤ) where
  -- After a login callback that signs in, the browser's next request reads the session that the
  -- callback built, until it expires, whatever cookies the browser held before. The codec laws and
  -- a nonce of the right size are assumed.
  handle_login_callback-read :
      (nonce : Str) (r : Request) (s : SignedIn) (later : ℤ) (jar : Jar)
      → IsFaithful a.crypto a.session_key s.payload
      → length nonce ≡ nonce_size
      → unix later <ℤ s.payload.exp
      → login_outcome a now (some nonce) r ≡ ok s
      → read_session_cookie a.crypto a.session_key later a.cfg.cookie_name
          (receive (unix later) (handle_login_callback a now (some nonce) r).cookies jar)
        ≡ ok s.payload
  unfolding handle_login_callback receive
  handle_login_callback-read nonce r s later jar law size live h =
      let checked = login_outcome-Checked a now (some nonce) r s h in
      rw h (
        read-set_session_cookie a.crypto a.session_key nonce a.cfg s.payload later _ law size live
          checked.session)

  module _ (nonce raw : Str) (u : User) where
    abbrev issued_payload : SessionPayload
    issued_payload = from_user (issued a.cfg now raw session_source_grant u.auth_time) u

    -- A session that IssueSession has written is read by the browser's next request as that user's,
    -- and the silent reconciliation never answers that it has signed out. The codec laws and a
    -- nonce of the right size are assumed.
    pub issue_session-survives_sync :
        (later : ℤ) (jar : Jar) (rand : Option Str) (r : Request) {cs : List SetCookie}
        → IsFaithful a.crypto a.session_key issued_payload
        → length nonce ≡ nonce_size
        → unix later <ℤ unix (now +ℤ a.cfg.session_ttl)
        → issue_session a now (some nonce) (some u) raw ≡ ok cs
        → r.cookies ≡ receive (unix later) cs jar
        → (session_of a later r ≡ ok issued_payload)
          × ((handle_sync_callback a later rand r).answer ≢ verdict signed_out)
    unfolding issue_session session_of is_grant_minted
    issue_session-survives_sync later jar rand r {cs} law size live h held =
        let p = issued_payload in
        let read : session_of a later r ≡ ok p = rw held (
          read-set_session_cookie a.crypto a.session_key nonce a.cfg p later jar law size
            (unfold from_user in live) h) in
        let grant : is_grant_minted p ≡ true = unfold from_user in refl in
        (
          read,
          λ e.
              let d = (signed_out_iff a later r rand).0 e in
              let same : d.2 ≡ p = ok-injective (sym d.3.2 ∙ read) in
              differ (sym grant ∙ rw same at d.5),
        )
      where
        differ : ◌≡◌ {A = Bool} true false → ⊥
        differ e = cc

-- After a logout the browser's next request has no session.
pub handle_logout-ends :
    (a : Auth) (now later : ℤ) (r next : Request)
    → next.cookies ≡ receive (unix later) (handle_logout a now r).cookies r.cookies
    → session_of a later next ≡ err (just no_session)
unfolding handle_logout session_of
handle_logout-ends a now later r next h =
    rw h (clear_session_cookie-no_session a.cfg (unix later) a.crypto a.session_key later r.cookies)
