-- ===== src/Setup/Construction.antt =====
-- auth.go: the constructor. Base64, go-oidc and oauth2 are parameters. The warnings go to the log
-- alone.
use go_vai_oidc.Prelude.{Option, none, some, List, map, Result, ok, err}
use go_vai_oidc.Prelude.Int.{ℤ}
use go_vai_oidc.Prelude.Text.{Str}
use go_vai_oidc.Errors.{Error}
use go_vai_oidc.Config.{Config}
use go_vai_oidc.Redirect.{Urls}
use go_vai_oidc.Session.Crypto.{Crypto}
use go_vai_oidc.Idp.{Idp}
use go_vai_oidc.Auth.{Auth}
use go_vai_oidc.Discovery.{Failure, Round, discover_with_retry}
use go_vai_oidc.Discovery.Provider.{DiscoveryRequest, OAuth2, Provider, discover, discover_round}
use go_vai_oidc.Setup.{discovery_url, apply_defaults, validate}

-- The arguments that New calls `discover` with.
unfoldable pub discovery_request : Config → DiscoveryRequest
discovery_request cfg = record {
  url = discovery_url cfg;
  client_id = cfg.client_id;
  client_secret = cfg.client_secret;
  callback_url = cfg.callback_url;
  issuer_override = cfg.issuer_url_override;
  scopes = cfg.scopes;
}

-- The libraries that an Auth works with, and NewProvider by the override and the URL: under the
-- caller's own context, and in the rounds of the retry loop.
pub record Platform : Type 0 where
  pub decode_secret : Str → Option Str
  pub crypto : Crypto
  pub urls : Urls
  pub sha256 : Str → Str
  pub oauth2 : OAuth2
  pub provider_once : Str → Str → Result Failure Provider
  pub provider_rounds : Str → Str → List (Round Provider)

-- Why there is no Auth: the configuration is refused, or discovery failed.
pub data SetupError : Type 0 where
  misconfigured : Error → SetupError
  undiscovered : Failure → SetupError

abbrev pub auth_of : Platform → Config → Str → Idp → Auth
auth_of platform cfg key idp = record {
  cfg = cfg;
  session_key = key;
  crypto = platform.crypto;
  idp = idp;
  urls = platform.urls;
  sha256 = platform.sha256;
}

abbrev pub built_from :
    Platform → Config → Str → Option (Result Failure Idp) → Option (Result SetupError Auth)
built_from platform cfg key none = none
built_from platform cfg key (some (err f)) = some (err (undiscovered f))
built_from platform cfg key (some (ok idp)) = some (ok (auth_of platform cfg key idp))

abbrev pub discover_for : Platform → ℤ → Config → Option (Result Failure Idp)
discover_for platform now cfg =
    let req = discovery_request cfg in
    discover_with_retry cfg.discovery_retry_budget now
      (discover platform.oauth2 req (platform.provider_once req.issuer_override req.url))
      (map (discover_round platform.oauth2 req)
        (platform.provider_rounds req.issuer_override req.url))

abbrev pub build : Platform → ℤ → Config → Result Error Str → Option (Result SetupError Auth)
build platform now cfg (err e) = some (err (misconfigured e))
build platform now cfg (ok key) = built_from platform cfg key (discover_for platform now cfg)

-- `New`, called at `now`; `none` while the retry loop still runs after the rounds.
unfoldable pub new_auth : Platform → ℤ → Config → Option (Result SetupError Auth)
new_auth platform now cfg =
    build platform now (apply_defaults cfg) (validate platform.decode_secret (apply_defaults cfg))
