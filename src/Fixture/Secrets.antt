-- ===== src/Fixture/Secrets.antt =====
-- testing.go with auth.go: a test's secret in a configuration.
use go_vai_oidc.Prelude.{◌≡◌, sym, ◌∙◌, ◌≢◌, some, err, length, some-eq, ap}
use go_vai_oidc.Prelude.Int.{ℤ}
use go_vai_oidc.Prelude.Text.{Str}
use go_vai_oidc.Errors.{just, session_key_invalid}
use go_vai_oidc.Config.{Config}
use go_vai_oidc.Setup.{apply_defaults, aes_key_length}
use go_vai_oidc.Setup.Construction.{Platform, misconfigured, new_auth}
use go_vai_oidc.Setup.Refused.{new_auth-session_key_invalid_iff}
use go_vai_oidc.Fixture.{test_session_secret}

-- New never refuses a configuration for its session key when the secret is that of a test, made of
-- 32 bytes, and base64 decodes what it encodes.
pub test_session_secret-accepted :
    (platform : Platform) (now : ℤ) (cfg : Config) (encode : Str → Str) (key secret : Str)
    → platform.decode_secret (encode key) ≡ some key
    → length key ≡ aes_key_length
    → test_session_secret encode (some key) ≡ some secret
    → cfg.session_secret ≡ secret
    → new_auth platform now cfg ≢ some (err (misconfigured (just session_key_invalid)))
unfolding test_session_secret apply_defaults
test_session_secret-accepted platform now cfg encode key secret inverse size made held refused =
    let bad = (new_auth-session_key_invalid_iff platform now cfg).0 refused in
    let same : (apply_defaults cfg).session_secret ≡ encode key = held ∙ sym (some-eq made) in
    bad.1 key (ap platform.decode_secret same ∙ inverse) size
