-- ===== src/Fixture.antt =====
-- testing.go: the Auth without a provider and the sessions that a consumer's tests work with. The
-- key is what crypto/rand answers; a failure ends the test, by Fatalf or by a panic, which is `none`.
pub mod Sessions
pub mod Secrets
use go_vai_oidc.Prelude.{true, false, Option, none, some, [], ◌*◌, Result, ok, err}
use go_vai_oidc.Prelude.Int.{ℤ, pos, ◌+ℤ◌}
use go_vai_oidc.Prelude.Text.{Str, codes}
use go_vai_oidc.Errors.{Error}
use go_vai_oidc.User.{User}
use go_vai_oidc.Config.{Config}
use go_vai_oidc.Redirect.{Urls}
use go_vai_oidc.Idp.{Idp}
use go_vai_oidc.Auth.{Auth}
use go_vai_oidc.Handlers.{Context}
use go_vai_oidc.Session.Payload.{SessionPayload, second, unix, unix_or_zero, from_user}
use go_vai_oidc.Session.Crypto.{Crypto, encrypt_session}
use go_vai_oidc.Discovery.Provider.{OAuth2, OAuth2Config}

abbrev pub test_config : Config
test_config = record {
  client_id = [];
  client_secret = [];
  callback_url = [];
  session_secret = [];
  issuer_url = [];
  keycloak_url = [];
  realm = [];
  post_login_redirect = [];
  landing_return_path = none;
  logout_redirect = codes "/";
  login_path = [];
  session_ttl = pos (3600 * second);
  cookie_name = codes "vai_test_session";
  cookie_path = codes "/";
  insecure_cookie = true;
  cookie_host_prefix = false;
  reject_same_site_callback = false;
  scopes = [];
  extra_claims = [];
  user_resolver = none;
  retain_tokens = false;
  revalidate_interval = pos 0;
  reresolve_on_revalidate = false;
  session_sync_enabled = false;
  require_email_domain = [];
  require_email_verified = false;
  discovery_retry_budget = pos 0;
  issuer_url_override = [];
}

abbrev zero_oauth2_config : OAuth2Config
zero_oauth2_config = record {
  client_id = [];
  client_secret = [];
  endpoint = record { auth_url = []; token_url = [] };
  redirect_url = [];
  scopes = [];
}

-- &oidcProvider{}
abbrev pub zero_provider : OAuth2 → Idp
zero_provider lib = record {
  exchange_code = lib.exchange_code zero_oauth2_config;
  token_source = lib.token_source zero_oauth2_config;
  verifier = none;
  marshal_claim = lib.marshal_claim;
  oauth2_auth_code_url = lib.auth_code_url zero_oauth2_config;
  authorization_endpoint = [];
  end_session_url = [];
}

-- `NewTestAuth`
unfoldable pub new_test_auth : Crypto → Urls → (Str → Str) → OAuth2 → Option Str → Option Auth
new_test_auth crypto urls sha256 lib none = none
new_test_auth crypto urls sha256 lib (some key) = some (record {
  cfg = test_config;
  session_key = key;
  crypto = crypto;
  idp = zero_provider lib;
  urls = urls;
  sha256 = sha256;
})

-- `SetTestUser`, on the context of the request.
unfoldable pub set_test_user : Context → Option User → Context
set_test_user ctx user = record ctx { user = user }

abbrev pub blank_payload : ℤ → ℤ → SessionPayload
blank_payload exp aut = record {
  sub = [];
  email = [];
  ev = false;
  name = [];
  org_id = [];
  mbs = [];
  claims = [];
  rls = [];
  sid = [];
  id_token = [];
  exp = exp;
  access_token = [];
  refresh_token = [];
  access_token_exp = pos 0;
  last_validated = pos 0;
  resolve_retry_at = pos 0;
  src = [];
  aut = aut;
}

abbrev pub fixture_payload : Auth → ℤ → User → SessionPayload
fixture_payload a now u =
    from_user (blank_payload (unix (now +ℤ a.cfg.session_ttl)) (unix_or_zero u.auth_time)) u

abbrev pub named_cookie : Str → Result Error Str → Option (Str × Str)
named_cookie name (err e) = none
named_cookie name (ok value) = some (name, value)

-- `TestSessionCookie`: the name and the value of the cookie.
unfoldable pub test_session_cookie : Auth → Option Str → ℤ → User → Option (Str × Str)
test_session_cookie a nonce now u =
    named_cookie a.cfg.cookie_name
      (encrypt_session a.crypto a.session_key nonce (fixture_payload a now u))

-- `TestSessionSecret`, by base64.StdEncoding.EncodeToString.
unfoldable pub test_session_secret : (Str → Str) → Option Str → Option Str
test_session_secret encode none = none
test_session_secret encode (some key) = some (encode key)
