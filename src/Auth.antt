-- ===== src/Auth.antt =====
-- auth.go: the Auth value that every handler shares, with the parameters of the model: the codecs,
-- the provider, net/url and SHA-256.
use go_vai_oidc.Prelude.Text.{Str}
use go_vai_oidc.Config.{Config}
use go_vai_oidc.Idp.{Idp}
use go_vai_oidc.Redirect.{Urls}
use go_vai_oidc.Session.Crypto.{Crypto}

pub record Auth : Type 0 where
  pub cfg : Config
  pub session_key : Str
  pub crypto : Crypto
  pub idp : Idp
  pub urls : Urls
  pub sha256 : Str → Str
