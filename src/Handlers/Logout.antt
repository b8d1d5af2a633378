-- ===== src/Handlers/Logout.antt =====
-- auth.go: `handleLogout` and the URL of the provider's logout.
use go_vai_oidc.Prelude.{Option, none, some, List, [], ◌∷◌, if◌then◌else◌, Result, ok, err}
use go_vai_oidc.Prelude.Int.{ℤ}
use go_vai_oidc.Prelude.Text.{Str, codes, is_empty}
use go_vai_oidc.Errors.{Error}
use go_vai_oidc.Cookie.{Request}
use go_vai_oidc.Auth.{Auth}
use go_vai_oidc.Redirect.{Urls}
use go_vai_oidc.Session.Payload.{SessionPayload}
use go_vai_oidc.Session.Store.{clear_session_cookie}
use go_vai_oidc.Flow.{redirect, Response, session_of}

abbrev parameter : Str → Str → List (Str × Str) → List (Str × Str)
parameter key [] rest = rest
parameter key (c ∷ v) rest = (key, c ∷ v) ∷ rest

abbrev or_else : Option Str → Str → Str
or_else none other = other
or_else (some s) other = s

-- `buildLogoutURL`
unfoldable pub build_logout_url : Urls → Str → Str → Str → Str → Str
build_logout_url urls end_session client_id hint post_logout =
    or_else
      (urls.set_query end_session (
        parameter (codes "client_id") client_id (
          parameter (codes "id_token_hint") hint
            (parameter (codes "post_logout_redirect_uri") post_logout []))))
      post_logout

abbrev hint_of : Result Error SessionPayload → Str
hint_of (err e) = []
hint_of (ok p) = p.id_token

-- `handleLogout`
unfoldable pub handle_logout : Auth → ℤ → Request → Response
unfolding build_logout_url
handle_logout a now r = record {
  cookies = clear_session_cookie a.cfg;
  answer = redirect (
      if is_empty a.idp.end_session_url
      then a.cfg.logout_redirect
      else build_logout_url a.urls a.idp.end_session_url a.cfg.client_id
          (hint_of (session_of a now r)) a.cfg.logout_redirect);
}
