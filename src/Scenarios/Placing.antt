-- ===== src/Scenarios/Placing.antt =====
-- The Obol resolver, in a login and in a re-resolution, on concrete input.
use go_vai_oidc.Prelude.{
  ◌≡◌, ◌≢◌, ◌↔◌, ◌⊎◌, refl, true, false, none, some, List, [], ◌∷◌, Result, ok, err,
}
use go_vai_oidc.Prelude.Int.{pos}
use go_vai_oidc.Prelude.Text.{Str, codes}
use go_vai_oidc.Config.{Config, login}
use go_vai_oidc.Cookie.{write_session_cookie}
use go_vai_oidc.User.{User, redirect_target}
use go_vai_oidc.Auth.{Auth}
use go_vai_oidc.Login.{SignedIn, login_outcome}
use go_vai_oidc.Reresolve.{reresolve, applied}
use go_vai_oidc.Obol.{
  IdentityEnsureMembership, IdentityEnsureLanding, IdentityEnsureResponse, ObolConfig, HttpClient,
  Wire, admit_landing, normalize_hosts, to_vai_memberships,
}
use go_vai_oidc.Obol.Resolver.{ensure, resolve, new_resolver}
use go_vai_oidc.Obol.Landings.{IsFollowable, admit_landing_iff}
use go_vai_oidc.Obol.Answers.{Placement, resolve_iff}
use go_vai_oidc.Obol.Orgs.{IsPlaced, login_outcome-IsPlaced, reresolve-members}
use go_vai_oidc.Scenarios.World.{
  config, deployment, session, ada, noon, twelve_bytes, sealed, request, flow_cookies,
}
use go_vai_oidc.Cookie.{Request}

abbrev funnel : IdentityEnsureLanding
funnel = record { decision = codes "onboarding"; landing_url = codes "https://obol.example/signup" }

abbrev pub lab_row : IdentityEnsureMembership
lab_row = record {
  org_id = codes "lab";
  org_name = codes "Lab";
  org_slug = codes "lab";
  role = codes "member";
  team_ids = [];
  security_officer = false;
}

-- The service places ada in the memberships given.
abbrev pub wire : List IdentityEnsureMembership → Wire
wire rows = record {
  marshal = λ req. ok req.sub;
  check_endpoint = λ url. ok tt;
  envelope = λ s. ok (record { data_text = s; error = none });
  response = λ s. ok (record { user_id = s; memberships = rows; landing = some funnel });
  parse_url = λ u.
      some (record { scheme = codes "https"; host = codes "OBOL.example"; has_userinfo = false });
}

abbrev pub service : HttpClient
service = λ req. ok (record { status_code = 200; body = req.body; read_error = none })

abbrev pub obol : ObolConfig
obol = record {
  base_url = codes "http://obol.internal:17350/";
  client = some service;
  timeout = pos 0;
  allow_empty_membership = false;
  allowed_landing_hosts = codes " obol.example " ∷ [];
}

admit_landing_iff_example :
    (redirect_target (
        admit_landing
          (wire []).parse_url
          (some funnel)
          (normalize_hosts obol.allowed_landing_hosts))
      ≡ some (codes "https://obol.example/signup"))
    ↔ (IsFollowable (wire []).parse_url obol.allowed_landing_hosts funnel
        × (codes "https://obol.example/signup" ≡ codes "https://obol.example/signup"))
admit_landing_iff_example =
    admit_landing_iff (wire []).parse_url obol.allowed_landing_hosts funnel
      (codes "https://obol.example/signup")

host_is_admitted_in_any_case :
    redirect_target
      (admit_landing (wire []).parse_url (some funnel) (normalize_hosts obol.allowed_landing_hosts))
    ≡ some (codes "https://obol.example/signup")
unfolding redirect_target admit_landing codes go_vai_oidc.User.landing_decision_redirects
    normalize_hosts go_vai_oidc.Prelude.Text.to_lower go_vai_oidc.Prelude.Text.trim_right
    go_vai_oidc.Prelude.Text.trim_left go_vai_oidc.Obol.host_allowed
host_is_admitted_in_any_case = refl

abbrev bound_for_signup : User
bound_for_signup = record ada {
  landing =
      some (record { decision = codes "onboarding"; url = codes "https://obol.example/signup" });
}

resolve_iff_example :
    (resolve (wire []) obol service login (some ada) ≡ ok (some bound_for_signup)) ↔ (
      (inner : IdentityEnsureResponse) × (ensure (wire []) obol service login ada ≡ ok inner)
      × Placement (wire []) obol ada inner bound_for_signup)
resolve_iff_example = resolve_iff (wire []) obol service login ada bound_for_signup

abbrev pub with_obol : List IdentityEnsureMembership → Auth
with_obol rows = record (deployment (codes "ada") session) {
  cfg = record config { user_resolver = new_resolver (wire rows) obol };
}

abbrev at_callback : Request
at_callback = request flow_cookies ((codes "state", codes "xyz") ∷ (codes "code", codes "c") ∷ [])

abbrev sent_on : SignedIn
sent_on = record {
  payload = session;
  user = bound_for_signup;
  stored_redirect = [];
  cookies = write_session_cookie (codes "s") sealed (codes "/") (pos 1700003600) true ∷ [];
}

login_outcome-IsPlaced_example : IsPlaced (wire []) obol bound_for_signup
unfolding codes login_outcome go_vai_oidc.Flow.flow_cookie go_vai_oidc.Cookie.unique_cookie
    go_vai_oidc.Cookie.cookies_named go_vai_oidc.Prelude.Text.str_eq
    go_vai_oidc.Config.flow_cookie_name go_vai_oidc.Redirect.parse_state_cookie
    go_vai_oidc.Idp.exchange go_vai_oidc.StepUp.verify_requested_max_age
    go_vai_oidc.Admission.admit_identity go_vai_oidc.Admission.require_verified
    go_vai_oidc.Admission.enforce_email_domain new_resolver resolve ensure
    go_vai_oidc.Obol.Resolver.read_limited go_vai_oidc.Idp.extract_user
    go_vai_oidc.Login.login_payload admit_landing go_vai_oidc.Obol.host_allowed normalize_hosts
    go_vai_oidc.Obol.Resolver.placed go_vai_oidc.Prelude.Text.lower
    go_vai_oidc.Prelude.Text.to_lower go_vai_oidc.Prelude.Text.trim_left
    go_vai_oidc.Prelude.Text.trim_right go_vai_oidc.Session.Crypto.encrypt_session
    go_vai_oidc.Session.Payload.from_user go_vai_oidc.Session.Payload.unix
    go_vai_oidc.Session.Store.set_session_cookie go_vai_oidc.User.landing_decision_redirects
    redirect_target go_vai_oidc.Prelude.Int.◌+ℤ◌
login_outcome-IsPlaced_example =
    login_outcome-IsPlaced (wire []) obol (with_obol []) noon (some twelve_bytes) at_callback
      sent_on refl refl refl refl

abbrev in_the_lab : User
in_the_lab = record ada {
  org_id = codes "lab";
  memberships = to_vai_memberships (lab_row ∷ []);
  landing = none;
}

abbrev lab_wire : Wire
lab_wire = record (wire []) {
  response = λ s. ok (record { user_id = s; memberships = lab_row ∷ []; landing = none });
}

abbrev lab_deployment : Auth
lab_deployment = record (deployment (codes "ada") session) {
  cfg = record config { user_resolver = new_resolver lab_wire obol };
}

reresolve-members_example : in_the_lab.memberships ≢ []
unfolding codes reresolve go_vai_oidc.Admission.admit_identity
    go_vai_oidc.Admission.require_verified go_vai_oidc.Admission.enforce_email_domain new_resolver
    resolve ensure go_vai_oidc.Obol.Resolver.read_limited go_vai_oidc.Obol.Resolver.placed
    go_vai_oidc.Reresolve.has_no_org admit_landing
reresolve-members_example =
    reresolve-members lab_wire obol lab_deployment session none in_the_lab refl refl refl refl
