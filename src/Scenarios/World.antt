-- ===== src/Scenarios/World.antt =====
-- A deployment, a person, and codecs that invert each other, for the concrete runs.
use go_vai_oidc.Prelude.{
  ◌+◌, ◌-◌, ◌*◌, ◌≡◌, ◌≢◌, refl, true, false, none, some, List, [], ◌∷◌, ◌++◌, map, arith, ok, All,
  if◌then◌else◌, ap,
}
use go_vai_oidc.Prelude.Int.{ℤ, pos}
use go_vai_oidc.Prelude.Text.{Str, codes, str_eq}
use go_vai_oidc.Config.{Config}
use go_vai_oidc.Cookie.{Request}
use go_vai_oidc.User.{User}
use go_vai_oidc.Idp.{Idp, Token, IdToken, no_fields}
use go_vai_oidc.Auth.{Auth}
use go_vai_oidc.Redirect.{Urls}
use go_vai_oidc.Session.Payload.{SessionPayload, second}
use go_vai_oidc.Session.Crypto.{Crypto, IsFaithful}

abbrev pub shift : Str → Str
shift = map (λ b. b + 59)

abbrev pub unshift : Str → Str
unshift = map (λ b. b - 59)

unshift-shift : (s : Str) → unshift (shift s) ≡ s
unshift-shift [] = refl
unshift-shift (b ∷ s) = let same : b + 59 - 59 ≡ b = omega arith in rw (same, unshift-shift s) refl

shift-no_colon : (s : Str) → All (λ b. b ≢ b':') (shift s)
shift-no_colon [] = tt
shift-no_colon (b ∷ s) = ((λ e. absurd (omega arith)), shift-no_colon s)

-- A codec that stands for one payload by a short text.
abbrev pub codec : SessionPayload → Crypto
codec p = record {
  marshal = λ q. some (codes "{}");
  unmarshal = λ s. some p;
  gcm_seal = λ key n s. s;
  gcm_open = λ key n s. some s;
  encode = shift;
  decode = λ s. some (unshift s);
}

abbrev pub key : Str
key = codes "0123456789abcdef"

pub codec-IsFaithful : (p : SessionPayload) → IsFaithful (codec p) key p
codec-IsFaithful p = record {
  unmarshal-marshal = λ s e. refl;
  open-seal = λ n s. refl;
  decode-encode = λ s. ap some (unshift-shift s);
  encode-no_colon = shift-no_colon;
}

abbrev pub twelve_bytes : Str
twelve_bytes = codes "abcdefghijkl"

abbrev pub noon : ℤ
noon = pos (1700000000 * second)

abbrev pub five_past : ℤ
five_past = pos (1700000300 * second)

abbrev pub config : Config
config = record {
  client_id = codes "app";
  client_secret = codes "secret";
  callback_url = codes "https://app.example/auth/callback";
  session_secret = codes "session secret";
  issuer_url = [];
  keycloak_url = codes "https://id.example";
  realm = codes "main";
  post_login_redirect = codes "/";
  landing_return_path = none;
  logout_redirect = codes "/bye";
  login_path = codes "/auth/login";
  session_ttl = pos (3600 * second);
  cookie_name = codes "s";
  cookie_path = codes "/";
  insecure_cookie = false;
  cookie_host_prefix = false;
  reject_same_site_callback = false;
  scopes = codes "openid" ∷ [];
  extra_claims = [];
  user_resolver = none;
  retain_tokens = true;
  revalidate_interval = pos (120 * second);
  reresolve_on_revalidate = false;
  session_sync_enabled = true;
  require_email_domain = [];
  require_email_verified = false;
  discovery_retry_budget = pos 0;
  issuer_url_override = [];
}

abbrev pub ada : User
ada = record {
  sub = codes "ada";
  email = [];
  email_verified = false;
  name = [];
  org_id = [];
  memberships = [];
  claims = [];
  session_id = [];
  realm_roles = [];
  auth_time = none;
  landing = none;
}

abbrev pub session : SessionPayload
session = record {
  sub = codes "ada";
  email = [];
  ev = false;
  name = [];
  org_id = [];
  mbs = [];
  claims = [];
  rls = [];
  sid = [];
  id_token = codes "raw";
  exp = pos 1700003600;
  access_token = codes "at";
  refresh_token = codes "rt";
  access_token_exp = pos 1700000060;
  last_validated = pos 1700000000;
  resolve_retry_at = pos 0;
  src = [];
  aut = pos 0;
}

abbrev pub fresh : Token
fresh = record {
  access_token = codes "at";
  refresh_token = codes "rt";
  expiry = pos (1700000060 * second);
  id_token = some (codes "raw");
}

abbrev pub id_token_of : Str → IdToken
id_token_of sub = record { subject = sub; claims = no_fields }

-- A provider that redeems every code for `fresh`, for the subject given.
abbrev pub provider : Str → Idp
provider sub = record {
  exchange_code = λ code verifier. ok fresh;
  token_source = λ t. ok fresh;
  verifier = some (λ raw. ok (id_token_of sub));
  marshal_claim = λ c. none;
  authorization_endpoint = codes "https://id.example/auth";
  oauth2_auth_code_url = λ state extra. codes "https://id.example/auth";
  end_session_url = codes "https://id.example/logout";
}

abbrev pub urls : Urls
urls = record {
  origin = λ u. some (codes "https", codes "app.example");
  set_query = λ u extra. some (u ++ codes "?q");
}

abbrev pub deployment : Str → SessionPayload → Auth
deployment sub p = record {
  cfg = config;
  session_key = key;
  crypto = codec p;
  idp = provider sub;
  urls = urls;
  sha256 = λ s. s;
}

-- A request with some cookies, whose query is given by an association list.
abbrev pub lookup : List (Str × Str) → Str → Str
lookup [] k = []
lookup ((n, v) ∷ ps) k = if str_eq n k then v else lookup ps k

abbrev pub request : List (Str × Str) → List (Str × Str) → Request
request cookies query = record {
  cookies = cookies;
  header = λ name. [];
  query = lookup query;
  request_uri = codes "/page";
}

abbrev pub flow_cookies : List (Str × Str)
flow_cookies = (codes "vai_oidc_state", codes "xyz") ∷ (codes "vai_pkce_verifier", codes "v") ∷ []

abbrev pub sealed : Str
sealed = shift (twelve_bytes ++ codes "{}")

abbrev pub session_cookie : List (Str × Str)
session_cookie = (codes "s", sealed) ∷ []
