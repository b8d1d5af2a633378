-- ===== src/Handlers/Tokens.antt =====
-- auth.go: what `AccessToken` hands out and what it leaves of the session.
use go_vai_oidc.Prelude.{true, false, Option, List, [], ◌≡◌, ◌⊎◌, ok, err}
use go_vai_oidc.Prelude.Int.{ℤ}
use go_vai_oidc.Prelude.Text.{Str, is_empty}
use go_vai_oidc.Errors.{Error}
use go_vai_oidc.Cookie.{SetCookie, Request}
use go_vai_oidc.Auth.{Auth}
use go_vai_oidc.Session.Payload.{SessionPayload}
use go_vai_oidc.Session.Store.{set_session_cookie}
use go_vai_oidc.Handlers.{Context, Done, share, access_token}

module _ (a : Auth) (now : ℤ) (ctx : Context) (r : Request) where
  -- The cookies of a session, none when it could not be written.
  abbrev pub IsWritten : Option Str → SessionPayload → List SetCookie → Type 0
  IsWritten rand q cs =
      (set_session_cookie a.crypto a.session_key rand a.cfg q ≡ ok cs)
      ⊎ ((e : Error) × (set_session_cookie a.crypto a.session_key rand a.cfg q ≡ err e) × (cs ≡ []))

  -- What an access token's request leaves: the session `q`, which is `p` but for its tokens, in the
  -- context and, if it changed, in a cookie where that can be written.
  abbrev pub Leaves : Option Str → SessionPayload → SessionPayload → Done Str → Type 0
  Leaves rand p q done =
      ((q ≡ p) × (done.context ≡ ctx) × (done.cookies ≡ []))
      ⊎ ((q ≡ record p {
        access_token = q.access_token;
        access_token_exp = q.access_token_exp;
        refresh_token = q.refresh_token;
      })
          × ((is_empty p.refresh_token ≡ true) ⊎ (is_empty q.refresh_token ≡ false))
          × (done.context ≡ share ctx q)
          × IsWritten rand q done.cookies)
