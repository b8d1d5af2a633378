-- ===== src/Scenarios/Recently.antt =====
-- A login that asked for a recent authentication, on concrete input.
use go_vai_oidc.Prelude.{ℕ, ◌+◌, ◌*◌, ◌≤◌, ◌≡◌, refl, true, none, some, [], ◌∷◌, ok, arith}
use go_vai_oidc.Prelude.Int.{ℤ, pos, ◌+ℤ◌}
use go_vai_oidc.Prelude.Text.{codes, str_eq}
use go_vai_oidc.Prelude.Decimal.{itoa, format_int}
use go_vai_oidc.Config.{flow_cookie_name}
use go_vai_oidc.Cookie.{Request, write_session_cookie, unique_cookie, cookies_named}
use go_vai_oidc.Redirect.{parse_state_cookie}
use go_vai_oidc.StepUp.{max_age_cookie_value, verify_requested_max_age}
use go_vai_oidc.Admission.{admit_identity, require_verified, enforce_email_domain}
use go_vai_oidc.Idp.{Idp, number, field, no_fields, exchange, extract_user}
use go_vai_oidc.Auth.{Auth}
use go_vai_oidc.Session.Payload.{SessionPayload, second, from_unix, to_user}
use go_vai_oidc.Session.Crypto.{encrypt_session}
use go_vai_oidc.Session.Store.{set_session_cookie}
use go_vai_oidc.Flow.{flow_cookie}
use go_vai_oidc.Login.{SignedIn, login_outcome, login_payload}
use go_vai_oidc.Login.Recent.{login_outcome-auth_time}
use go_vai_oidc.Scenarios.World.{
  session, ada, noon, twelve_bytes, sealed, request, flow_cookies, deployment, provider,
}

-- The age of 300 seconds was asked for 100 seconds ago.
abbrev begun : ℤ
begun = pos (1699999900 * second)

abbrev authenticated_at : ℕ
authenticated_at = 1699999800

abbrev telling_provider : Idp
telling_provider = record (provider (codes "ada")) {
  verifier = some (λ raw. ok (record {
    subject = codes "ada";
    claims = field (codes "auth_time") (number (pos (authenticated_at * second))) no_fields;
  }));
}

abbrev recent_session : SessionPayload
recent_session = record session { aut = pos authenticated_at }

abbrev demanding : Auth
demanding = record (deployment (codes "ada") recent_session) { idp = telling_provider }

abbrev with_age : Request
with_age =
    request ((codes "vai_oidc_max_age", codes "300.1699999900") ∷ flow_cookies)
      ((codes "state", codes "xyz") ∷ (codes "code", codes "c") ∷ [])

abbrev recent_login : SignedIn
recent_login = record {
  payload = recent_session;
  user = record ada { auth_time = some (from_unix (pos authenticated_at)) };
  stored_redirect = [];
  cookies = write_session_cookie (codes "s") sealed (codes "/") (pos 1700003600) true ∷ [];
}

login_outcome-auth_time_example :
    (at : ℕ) × ((to_user recent_session).auth_time ≡ some (from_unix (pos at)))
    × (1699999900 ≤ at + 300 + 30)
unfolding login_outcome flow_cookie unique_cookie cookies_named str_eq codes flow_cookie_name
    parse_state_cookie exchange verify_requested_max_age admit_identity require_verified
    enforce_email_domain set_session_cookie encrypt_session login_payload extract_user ◌+ℤ◌
    go_vai_oidc.StepUp.parse_max_age_cookie go_vai_oidc.StepUp.parse_max_age
    go_vai_oidc.Prelude.Decimal.parse_int go_vai_oidc.StepUp.check_auth_time
    go_vai_oidc.Prelude.Int.◌-ℤ◌ max_age_cookie_value itoa format_int
login_outcome-auth_time_example =
    login_outcome-auth_time demanding noon (some twelve_bytes) with_age recent_login 300 1699999900
      begun refl refl refl (omega arith) (omega arith) (omega arith)
