-- ===== src/Flow.antt =====
-- What the browser-facing handlers of auth.go and sessionsync.go share: the answers that they give,
-- the flow cookies, and the PKCE pair of oidc.go. A handler runs at one instant `now`.
use go_vai_oidc.Prelude.{ℕ, Bool, Option, none, some, List, if◌then◌else◌, Result}
use go_vai_oidc.Prelude.Int.{ℤ}
use go_vai_oidc.Prelude.Text.{Str, codes, contains}
use go_vai_oidc.Errors.{Error}
use go_vai_oidc.Config.{Config, flow_cookie_name, secure_cookie}
use go_vai_oidc.Cookie.{SetCookie, Request, set_oidc_cookie, clear_oidc_cookie, unique_cookie}
use go_vai_oidc.Auth.{Auth}
use go_vai_oidc.Redirect.{append_query_param, is_valid_redirect}
use go_vai_oidc.Session.Payload.{SessionPayload}
use go_vai_oidc.Session.Store.{read_session_cookie}

pub data SyncResult : Type 0 where
  unchanged switched signed_out no_session disabled failed not_applicable : SyncResult

-- `SessionStatus`
pub record SessionStatus : Type 0 where
  pub authenticated : Bool
  pub sub : Str
  pub expires_at : ℤ
  pub revalidated_at : ℤ

-- A redirect, an error body with its HTTP status, the verdict document of session sync, the session
-- status with its HTTP status.
pub data Answer : Type 0 where
  redirect : Str → Answer
  refuse : ℕ → Str → Answer
  verdict : SyncResult → Answer
  status : ℕ → SessionStatus → Answer

pub record Response : Type 0 where
  pub cookies : List SetCookie
  pub answer : Answer

abbrev pub cookie_oidc_state : Str
cookie_oidc_state = codes "vai_oidc_state"

abbrev pub cookie_pkce_verifier : Str
cookie_pkce_verifier = codes "vai_pkce_verifier"

abbrev pub cookie_oidc_max_age : Str
cookie_oidc_max_age = codes "vai_oidc_max_age"

abbrev pub cookie_oidc_sync : Str
cookie_oidc_sync = codes "vai_oidc_sync"

unfoldable pub set_flow_cookie : Config → Str → Str → SetCookie
set_flow_cookie cfg base value =
    set_oidc_cookie (flow_cookie_name cfg base) value cfg.cookie_path (secure_cookie cfg)

unfoldable pub clear_flow_cookie : Config → Str → SetCookie
clear_flow_cookie cfg base =
    clear_oidc_cookie (flow_cookie_name cfg base) cfg.cookie_path (secure_cookie cfg)

unfoldable pub flow_cookie : Config → Request → Str → Result Error Str
flow_cookie cfg r base = unique_cookie r (flow_cookie_name cfg base)

-- `generatePKCE`: the verifier and its S256 challenge, over the bytes that crypto/rand answers.
unfoldable pub generate_pkce : Auth → Option Str → Option (Str × Str)
generate_pkce a none = none
generate_pkce a (some bytes) =
    let verifier = a.crypto.encode bytes in some (verifier, a.crypto.encode (a.sha256 verifier))

-- `readSessionCookie` on a request.
unfoldable pub session_of : Auth → ℤ → Request → Result Error SessionPayload
session_of a now r = read_session_cookie a.crypto a.session_key now a.cfg.cookie_name r.cookies

-- `wantsBrowser`
unfoldable pub wants_browser : Request → Bool
unfolding contains codes
wants_browser r = contains (r.header (codes "Accept")) (codes "text/html")

-- `unauthenticated`, which is also what RequireSession does without a session.
unfoldable pub unauthenticated : Auth → Request → Answer
unfolding wants_browser
unauthenticated a r =
    if wants_browser r
    then redirect (
        if is_valid_redirect r.request_uri
        then append_query_param a.urls a.cfg.login_path (codes "redirect") r.request_uri
        else a.cfg.login_path)
    else refuse 401 (codes "authentication required")
