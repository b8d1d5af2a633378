-- ===== src/Scenarios/Logins.antt =====
-- A login, an issued session and a logout, on concrete input.
use go_vai_oidc.Prelude.{◌≡◌, ◌≢◌, refl, none, some, [], ◌∷◌, ◌++◌, ok, err, ◌⊎◌, true, arith}
use go_vai_oidc.Prelude.Int.{pos, ◌+ℤ◌}
use go_vai_oidc.Prelude.Text.{codes, str_eq}
use go_vai_oidc.Errors.{just, no_session}
use go_vai_oidc.Config.{flow_cookie_name}
use go_vai_oidc.Cookie.{Request, write_session_cookie, unique_cookie, cookies_named, sanitized}
use go_vai_oidc.Cookie.Browser.{Jar, receive, store, remove}
use go_vai_oidc.Redirect.{parse_state_cookie, is_valid_redirect, post_login_target}
use go_vai_oidc.StepUp.{verify_requested_max_age}
use go_vai_oidc.Admission.{admit_identity, require_verified, enforce_email_domain}
use go_vai_oidc.Idp.{exchange, extract_user}
use go_vai_oidc.Auth.{Auth}
use go_vai_oidc.Session.Payload.{SessionPayload, unix, from_user, session_source_grant}
use go_vai_oidc.Session.Crypto.{encrypt_session}
use go_vai_oidc.Session.Store.{set_session_cookie, lay_out}
use go_vai_oidc.Flow.{redirect, verdict, signed_out, flow_cookie, session_of}
use go_vai_oidc.Sync.{handle_sync_callback}
use go_vai_oidc.Login.{
  Refusal, SignedIn, login_outcome, login_payload, handle_login_callback, login_clears, issued,
}
use go_vai_oidc.Login.Sound.{Checked, login_outcome-Checked}
use go_vai_oidc.Login.Answers.{GoesOn, IsRefused, handle_login_callback-cookies}
use go_vai_oidc.Login.{handle_login}
use go_vai_oidc.Handlers.{handle_logout, issue_session}
use go_vai_oidc.Handlers.Issued.{issue_session-survives_sync, handle_logout-ends}
use go_vai_oidc.Scenarios.World.{
  config, codec-IsFaithful, deployment, session, ada, noon, five_past, twelve_bytes, sealed,
  request, flow_cookies,
}

abbrev at_callback : Request
at_callback = request flow_cookies ((codes "state", codes "xyz") ∷ (codes "code", codes "c") ∷ [])

abbrev here : Auth
here = deployment (codes "ada") session

abbrev signed_in : SignedIn
signed_in = record {
  payload = session;
  user = ada;
  stored_redirect = [];
  cookies = write_session_cookie (codes "s") sealed (codes "/") (pos 1700003600) true ∷ [];
}

login_outcome-Checked_example : Checked here noon (some twelve_bytes) at_callback signed_in
unfolding login_outcome flow_cookie unique_cookie cookies_named str_eq codes flow_cookie_name
    parse_state_cookie exchange verify_requested_max_age admit_identity require_verified
    enforce_email_domain set_session_cookie encrypt_session login_payload extract_user ◌+ℤ◌
login_outcome-Checked_example =
    login_outcome-Checked here noon (some twelve_bytes) at_callback signed_in refl

handle_login_callback-cookies_example :
    ((s : SignedIn) × (login_outcome here noon none at_callback ≡ ok s)
      × (set_session_cookie here.crypto here.session_key none here.cfg s.payload ≡ ok s.cookies)
      × ((handle_login_callback here noon none at_callback).cookies
          ≡ login_clears here ++ s.cookies)
      × GoesOn here noon none at_callback s
          (handle_login_callback here noon none at_callback).answer)
    ⊎ ((why : Refusal) × (login_outcome here noon none at_callback ≡ err why)
        × ((handle_login_callback here noon none at_callback).answer ≡ redirect (codes "/bye"))
        × IsRefused here noon none at_callback
            (handle_login_callback here noon none at_callback).cookies)
handle_login_callback-cookies_example = handle_login_callback-cookies here noon none at_callback

abbrev granted : SessionPayload
granted = from_user (issued config noon (codes "raw") session_source_grant none) ada

abbrev there : Auth
there = deployment (codes "ada") granted

abbrev back_from_idp : Request
back_from_idp = request ((codes "s", sealed) ∷ []) ((codes "error", codes "login_required") ∷ [])

issue_session-survives_sync_example :
    (session_of there five_past back_from_idp ≡ ok granted)
    × ((handle_sync_callback there five_past none back_from_idp).answer ≢ verdict signed_out)
unfolding codes unix ◌+ℤ◌ issue_session set_session_cookie encrypt_session lay_out from_user receive
    store remove
issue_session-survives_sync_example =
    issue_session-survives_sync there noon twelve_bytes (codes "raw") ada five_past [] none
      back_from_idp
      {cs = write_session_cookie (codes "s") sealed (codes "/") (pos 1700003600) true ∷ []}
      (codec-IsFaithful granted) refl (omega arith) refl refl

handle_logout-ends_example :
    session_of here five_past (
      request
        (receive (unix five_past) (handle_logout here noon at_callback).cookies flow_cookies)
        [])
    ≡ err (just no_session)
handle_logout-ends_example =
    handle_logout-ends here noon five_past at_callback
      (request (receive (unix five_past) (handle_logout here noon at_callback).cookies flow_cookies)
        [])
      refl

abbrev wanting_reports : Request
wanting_reports = request [] ((codes "redirect", codes "/reports|all") ∷ [])

abbrev reports_jar : Jar
reports_jar =
    receive (unix noon)
      (handle_login here noon (some (10 ∷ 255 ∷ [])) (some (1 ∷ 2 ∷ [])) wanting_reports).cookies
      flow_cookies

-- The browser sends a cookie of another scope too.
abbrev returning : Request
returning = request (reports_jar ++ (codes "theme", codes "dark") ∷ []) []

-- What is left of a local path may lead to another host: the semicolon is dropped.
a_semicolon_is_dropped :
    (is_valid_redirect (codes "/;/evil.example") ≡ true)
    × (sanitized (codes "/;/evil.example") ≡ codes "//evil.example")
    × (post_login_target config (codes "//evil.example") ≡ codes "//evil.example")
unfolding codes sanitized is_valid_redirect post_login_target go_vai_oidc.Prelude.Text.has_prefix
    go_vai_oidc.Prelude.Text.contains go_vai_oidc.Prelude.Text.contains_any
a_semicolon_is_dropped = (refl, refl, refl)
