-- ===== src/Login.antt =====
-- auth.go: the login, its callback, and the dispatch between the callback's two uses.
mod Start
pub mod Sound
pub mod Answers
pub mod Recent
pub mod Return
use go_vai_oidc.Prelude.{
  ℕ, Bool, true, false, ◌&&◌, ◌||◌, not, Option, none, some, List, [], ◌∷◌, ◌++◌, if◌then◌else◌,
  Result, ok, err, ◌>>=◌,
}
use go_vai_oidc.Prelude.Int.{ℤ, pos, ◌+ℤ◌}
use go_vai_oidc.Prelude.Text.{Str, codes, str_eq, is_empty}
use go_vai_oidc.Prelude.Decimal.{itoa}
use go_vai_oidc.Errors.{Error, error_is, duplicate_cookie}
use go_vai_oidc.Config.{Config, Admission, login}
use go_vai_oidc.Cookie.{SetCookie, Request, cookie, is_same_site_navigation}
use go_vai_oidc.Config.{flow_cookie_name}
use go_vai_oidc.User.{User, redirect_target}
use go_vai_oidc.Admission.{admit_identity}
use go_vai_oidc.StepUp.{
  MaxAge, absent, malformed, seconds, parse_max_age, max_age_cookie_value, verify_requested_max_age,
}
use go_vai_oidc.Idp.{Idp, Token, IdToken, exchange, extract_user}
use go_vai_oidc.Auth.{Auth}
use go_vai_oidc.Redirect.{
  generate_state, parse_state_cookie, state_cookie_value, is_valid_redirect, append_query_param,
  post_login_target, landing_consumer_return_to,
}
use go_vai_oidc.Session.Payload.{SessionPayload, unix, unix_or_zero, from_user}
use go_vai_oidc.Session.Store.{set_session_cookie}
use go_vai_oidc.Flow.{
  failed, Answer, redirect, refuse, verdict, Response, cookie_oidc_state, cookie_pkce_verifier,
  cookie_oidc_max_age, cookie_oidc_sync, set_flow_cookie, clear_flow_cookie, flow_cookie,
  generate_pkce,
}
use go_vai_oidc.Sync.{handle_sync_callback}
unfoldable pub use go_vai_oidc.Login.Start.{
  valid_or_empty, max_age_marker, begin_login, login_of, handle_login,
}

-- Why a login callback is refused, in the order of the code's tests.
pub data Refusal : Type 0 where
  duplicate_flow_cookie missing_state_cookie missing_pkce_cookie : Refusal
  idp_error state_mismatch missing_code exchange_failed max_age_refused : Refusal
  not_admitted : Error → Refusal
  session_not_set : Refusal

abbrev present : Refusal → Result Error Str → Result Refusal Str
present missing (ok v) = ok v
present missing (err e) =
    if error_is e duplicate_cookie then err duplicate_flow_cookie else err missing

abbrev require : Bool → Refusal → Result Refusal (Unit {0})
require true why = ok tt
require false why = err why

abbrev state_matches : Request → Str → Bool
state_matches r state =
    not (is_empty (r.query (codes "state"))) && str_eq (r.query (codes "state")) state

abbrev exchanged : Result Error (Token × Str × IdToken) → Result Refusal (Token × Str × IdToken)
exchanged (ok t) = ok t
exchanged (err e) = err exchange_failed

abbrev is_none {ℓ} : {A : Type ℓ} → Option A → Bool
is_none none = true
is_none (some x) = false

-- A user that is not nil is never admitted as nil.
abbrev admitted : Result Error (Option User) → Result Refusal User
admitted (ok (some u)) = ok u
admitted (ok none) = err (not_admitted [])
admitted (err e) = err (not_admitted e)

abbrev blank : SessionPayload
blank = record {
  sub = [];
  email = [];
  ev = false;
  name = [];
  org_id = [];
  mbs = [];
  claims = [];
  rls = [];
  sid = [];
  id_token = [];
  exp = pos 0;
  access_token = [];
  refresh_token = [];
  access_token_exp = pos 0;
  last_validated = pos 0;
  resolve_retry_at = pos 0;
  src = [];
  aut = pos 0;
}

-- A payload issued at `now`, before its user is written into it.
abbrev pub issued : Config → ℤ → Str → Str → Option ℤ → SessionPayload
issued cfg now raw src auth_time = record blank {
  id_token = raw;
  exp = unix (now +ℤ cfg.session_ttl);
  last_validated = unix now;
  src = src;
  aut = unix_or_zero auth_time;
}

abbrev pub retained : Bool → Token → SessionPayload → SessionPayload
retained false t p = p
retained true t p = record p {
  access_token = t.access_token;
  refresh_token = t.refresh_token;
  access_token_exp = unix t.expiry;
}

-- The session of a login: `authTime` is that of the ID token, whatever the resolver answered.
unfoldable pub login_payload : Config → ℤ → Token → Str → Option ℤ → User → SessionPayload
unfolding unix_or_zero from_user
login_payload cfg now t raw auth_time u =
    retained cfg.retain_tokens t (from_user (issued cfg now raw [] auth_time) u)

pub record SignedIn : Type 0 where
  pub payload : SessionPayload
  pub user : User
  pub stored_redirect : Str
  pub cookies : List SetCookie

abbrev set_or_refuse : Result Error (List SetCookie) → Result Refusal (List SetCookie)
set_or_refuse (ok cs) = ok cs
set_or_refuse (err e) = err session_not_set

-- The tests of `handleLoginCallback`, up to the session cookie.
unfoldable pub login_outcome : Auth → ℤ → Option Str → Request → Result Refusal SignedIn
login_outcome a now rand r = do
  state_cookie ← present missing_state_cookie (flow_cookie a.cfg r cookie_oidc_state)
  verifier ← present missing_pkce_cookie (flow_cookie a.cfg r cookie_pkce_verifier)
  answered ← require (is_empty (r.query (codes "error"))) idp_error
  same ← require (state_matches r (parse_state_cookie state_cookie).0) state_mismatch
  coded ← require (not (is_empty (r.query (codes "code")))) missing_code
  t ← exchanged (exchange a.idp (r.query (codes "code")) verifier)
  let identity = extract_user a.idp t.2 a.cfg.extra_claims
  recent ← require (is_none (verify_requested_max_age a.cfg r identity.auth_time)) max_age_refused
  user ← admitted (admit_identity a.cfg login (some identity))
  let payload = login_payload a.cfg now t.0 t.1 identity.auth_time user
  cookies ← set_or_refuse (set_session_cookie a.crypto a.session_key rand a.cfg payload)
  ok (record {
    payload = payload;
    user = user;
    stored_redirect = (parse_state_cookie state_cookie).1;
    cookies = cookies;
  })

abbrev pub login_clears : Auth → List SetCookie
login_clears a =
    clear_flow_cookie a.cfg cookie_oidc_state
    ∷ clear_flow_cookie a.cfg cookie_pkce_verifier
    ∷ clear_flow_cookie a.cfg cookie_oidc_max_age
    ∷ []

-- A missing cookie is refused before the flow cookies are cleared, all else after.
abbrev refusal_cookies : Auth → Refusal → List SetCookie
refusal_cookies a missing_state_cookie = []
refusal_cookies a missing_pkce_cookie = []
refusal_cookies a _ = login_clears a

abbrev with_return_to : Auth → Str → Str → Str
with_return_to a url [] = url
with_return_to a url (c ∷ s) = append_query_param a.urls url (codes "consumer_return_to") (c ∷ s)

-- Where a finished login sends the browser: to the backend's landing if it redirects.
abbrev landing_target : Auth → Str → Option Str → Str
landing_target a target none = target
landing_target a target (some url) =
    with_return_to a url (landing_consumer_return_to a.urls a.cfg target)

abbrev login_response : Auth → Result Refusal SignedIn → Response
login_response a (err why) = record {
  cookies = refusal_cookies a why;
  answer = redirect a.cfg.logout_redirect;
}
login_response a (ok s) = record {
  cookies = login_clears a ++ s.cookies;
  answer = redirect (
      landing_target a (post_login_target a.cfg s.stored_redirect)
        (redirect_target s.user.landing));
}

-- `handleLoginCallback`
unfoldable pub handle_login_callback : Auth → ℤ → Option Str → Request → Response
handle_login_callback a now rand r = login_response a (login_outcome a now rand r)

abbrev pub is_some {ℓ} : {A : Type ℓ} → Option A → Bool
is_some none = false
is_some (some x) = true

-- `handleCallback`
unfoldable pub handle_callback : Auth → ℤ → Option Str → Request → Response
handle_callback a now rand r =
    let is_sync = is_some (cookie (flow_cookie_name a.cfg cookie_oidc_sync) r.cookies) in
    if a.cfg.reject_same_site_callback && is_same_site_navigation r
    then (if is_sync
        then record { cookies = []; answer = verdict failed }
        else record { cookies = []; answer = redirect a.cfg.logout_redirect })
    else if is_sync
    then handle_sync_callback a now rand r
    else handle_login_callback a now rand r
