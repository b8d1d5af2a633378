-- ===== src/Config.antt =====
-- config.go: the configuration that the handlers read, and its small methods. Durations are
-- nanoseconds. A UserResolver is a function of the admission kind that its context carries and of
-- the identity; it answers an error or a user that may be nil.
use go_vai_oidc.Prelude.{Bool, Option, List, ◌++◌, not, if◌then◌else◌, Result}
use go_vai_oidc.Prelude.Int.{ℤ}
use go_vai_oidc.Prelude.Text.{Str, codes}
use go_vai_oidc.Errors.{Error}
use go_vai_oidc.User.{User}

-- `Admission` of admission.go; `unspecified` is the empty string that AdmissionFromContext answers
-- for a context that the library did not build.
pub data Admission : Type 0 where
  login revalidation unspecified : Admission

abbrev pub UserResolver : Type 0
UserResolver = Admission → Option User → Result Error (Option User)

pub record Config : Type 0 where
  pub client_id : Str
  pub client_secret : Str
  pub callback_url : Str
  pub session_secret : Str
  pub issuer_url : Str
  pub keycloak_url : Str
  pub realm : Str
  pub post_login_redirect : Str
  pub landing_return_path : Option (Str → Str)
  pub logout_redirect : Str
  pub login_path : Str
  pub session_ttl : ℤ
  pub cookie_name : Str
  pub cookie_path : Str
  pub insecure_cookie : Bool
  pub cookie_host_prefix : Bool
  pub reject_same_site_callback : Bool
  pub scopes : List Str
  pub extra_claims : List Str
  pub user_resolver : Option UserResolver
  pub retain_tokens : Bool
  pub revalidate_interval : ℤ
  pub reresolve_on_revalidate : Bool
  pub session_sync_enabled : Bool
  pub require_email_domain : Str
  pub require_email_verified : Bool
  pub discovery_retry_budget : ℤ
  pub issuer_url_override : Str

abbrev pub cookie_host_prefix_text : Str
cookie_host_prefix_text = codes "__Host-"

abbrev pub secure_cookie : Config → Bool
secure_cookie cfg = not cfg.insecure_cookie

unfoldable pub flow_cookie_name : Config → Str → Str
flow_cookie_name cfg base = if cfg.cookie_host_prefix then cookie_host_prefix_text ++ base else base
