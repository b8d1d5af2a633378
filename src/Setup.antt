-- ===== src/Setup.antt =====
-- config.go: the defaults and the checks of a configuration. Base64 is a parameter. The warnings go
-- to the log alone.
pub mod Usable
pub mod Construction
pub mod Routes
pub mod Built
pub mod Refused
pub mod Returns
use go_vai_oidc.Prelude.{
  ℕ, zero, suc, ◌*◌, Bool, true, false, ◌&&◌, not, Option, none, some, List, [], ◌∷◌, ◌++◌, map,
  ◌==◌, if◌then◌else◌, Result, ok, err, ◌>>=◌, or_err, length,
}
use go_vai_oidc.Prelude.Int.{ℤ, pos, negsuc, leb_ℤ, ltb_ℤ}
use go_vai_oidc.Prelude.Text.{
  Str, codes, str_eq, is_empty, has_prefix, contains_any, to_lower, trim_right_byte,
}
use go_vai_oidc.Errors.{Error, just, invalid_config, session_key_invalid}
use go_vai_oidc.Config.{Config, cookie_host_prefix_text}
use go_vai_oidc.Session.Payload.{second}
use go_vai_oidc.Redirect.{Urls, is_valid_redirect}
use go_vai_oidc.Session.Crypto.{Crypto}
use go_vai_oidc.Idp.{Idp}
use go_vai_oidc.Auth.{Auth}
use go_vai_oidc.Discovery.{Failure, Round, discover_with_retry}
use go_vai_oidc.Discovery.Provider.{DiscoveryRequest, OAuth2, Provider, discover, discover_round}

-- `Config.discoveryURL`
unfoldable pub discovery_url : Config → Str
discovery_url cfg =
    if is_empty cfg.issuer_url
    then cfg.keycloak_url ++ (codes "/realms/" ++ cfg.realm)
    else trim_right_byte b'/' cfg.issuer_url

abbrev pub default_session_ttl : ℤ
default_session_ttl = pos (24 * 3600 * second)

abbrev pub discovery_retry_budget_default : ℤ
discovery_retry_budget_default = pos (90 * second)

abbrev pub default_scopes : List Str
default_scopes = codes "openid" ∷ codes "profile" ∷ codes "email" ∷ []

abbrev pub or_default : Str → Str → Str
or_default s standard = if is_empty s then standard else s

abbrev pub or_default_ℤ : ℤ → ℤ → ℤ
or_default_ℤ (pos zero) standard = standard
or_default_ℤ (pos (suc n)) standard = pos (suc n)
or_default_ℤ (negsuc n) standard = negsuc n

abbrev pub or_default_scopes : List Str → List Str
or_default_scopes [] = default_scopes
or_default_scopes (s ∷ ss) = s ∷ ss

abbrev pub prefixed : Bool → Str → Str
prefixed wanted name =
    if wanted && not (has_prefix name cookie_host_prefix_text)
    then cookie_host_prefix_text ++ name
    else name

-- `Config.applyDefaults`, without the logger. An empty domain stays empty when it is lowered.
unfoldable pub apply_defaults : Config → Config
apply_defaults cfg = record cfg {
  post_login_redirect = or_default cfg.post_login_redirect (codes "/");
  logout_redirect = or_default cfg.logout_redirect (codes "/");
  login_path = or_default cfg.login_path (codes "/auth/login");
  session_ttl = or_default_ℤ cfg.session_ttl default_session_ttl;
  cookie_name = prefixed cfg.cookie_host_prefix (or_default cfg.cookie_name (codes "vai_session"));
  cookie_path = or_default cfg.cookie_path (codes "/");
  scopes = or_default_scopes cfg.scopes;
  discovery_retry_budget = or_default_ℤ cfg.discovery_retry_budget discovery_retry_budget_default;
  require_email_domain = to_lower cfg.require_email_domain;
}

-- Go's guard `if test { return error }`.
abbrev pub refuse_if : Bool → Error → Result Error (Unit {0})
refuse_if true e = err e
refuse_if false e = ok tt

-- The required fields of `validate`.
abbrev pub required_fields : Config → List Str
required_fields cfg =
    (cfg.client_id ∷ cfg.client_secret ∷ cfg.callback_url ∷ cfg.session_secret ∷ [])
    ++ (if is_empty cfg.issuer_url then cfg.keycloak_url ∷ cfg.realm ∷ [] else [])

unfoldable pub require_all : List Str → Result Error (Unit {0})
require_all [] = ok tt
require_all (field ∷ fields) =
    refuse_if (is_empty field) (just invalid_config) >>= λ given. require_all fields

abbrev pub aes_key_length : ℕ
aes_key_length = 32

abbrev pub forbidden_runes : Str
forbidden_runes = codes "@ \t\r\n"

abbrev pub is_bad_domain : Str → Bool
is_bad_domain domain = not (is_empty domain) && contains_any domain forbidden_runes

unfoldable pub check_interval : Config → Result Error (Unit {0})
check_interval cfg =
    if ltb_ℤ (pos 0) cfg.revalidate_interval
    then (refuse_if (not cfg.retain_tokens) (just invalid_config) >>= λ retained.
        refuse_if (leb_ℤ cfg.session_ttl cfg.revalidate_interval) (just invalid_config))
    else ok tt

abbrev pub is_none : {A : Type 0} → Option A → Bool
is_none none = true
is_none (some x) = false

unfoldable pub check_reresolve : Config → Result Error (Unit {0})
check_reresolve cfg =
    if cfg.reresolve_on_revalidate
    then (refuse_if (leb_ℤ cfg.revalidate_interval (pos 0)) (just invalid_config) >>= λ positive.
        refuse_if (is_none cfg.user_resolver) (just invalid_config))
    else ok tt

unfoldable pub check_host_prefix : Config → Result Error (Unit {0})
check_host_prefix cfg =
    if cfg.cookie_host_prefix
    then (refuse_if cfg.insecure_cookie (just invalid_config) >>= λ secure.
        refuse_if (not (str_eq cfg.cookie_path (codes "/"))) (just invalid_config))
    else ok tt

-- The checks of `validate` behind the session key.
unfoldable pub check_values : Config → Result Error (Unit {0})
check_values cfg = do
  domain ← refuse_if (is_bad_domain cfg.require_email_domain) (just invalid_config)
  local ← refuse_if (not (is_valid_redirect cfg.post_login_redirect)) (just invalid_config)
  interval ← check_interval cfg
  reresolve ← check_reresolve cfg
  check_host_prefix cfg

-- `Config.validate`; `decode` is base64's StdEncoding.DecodeString.
unfoldable pub validate : (Str → Option Str) → Config → Result Error Str
validate decode cfg = do
  given ← require_all (required_fields cfg)
  key ← or_err (decode cfg.session_secret) (just session_key_invalid)
  sized ← refuse_if (not (length key == aes_key_length)) (just session_key_invalid)
  values ← check_values cfg
  ok key
