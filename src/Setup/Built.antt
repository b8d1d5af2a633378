-- ===== src/Setup/Built.antt =====
-- auth.go: what New builds, and why it refuses; config.go: the defaults that it fills in.
use go_vai_oidc.Prelude.{
  ◌≡◌, refl, ◌≢◌, ◌↔◌, ◌⊎◌, true, Option, none, some, [], ◌++◌, Result, ok, err, some-eq,
  ok-injective, err-ne-ok, sym,
}
use go_vai_oidc.Prelude.Int.{ℤ, pos, ◌<ℤ◌}
use go_vai_oidc.Prelude.Text.{Str}
use go_vai_oidc.Config.{Config, cookie_host_prefix_text}
use go_vai_oidc.Errors.{Error}
use go_vai_oidc.Idp.{Idp}
use go_vai_oidc.Auth.{Auth}
use go_vai_oidc.Discovery.{Failure}
use go_vai_oidc.Redirect.{post_login_target}
use go_vai_oidc.Redirect.Safe.{IsLocalPath, BeginsWith}
use go_vai_oidc.Session.Payload.{SessionPayload}
use go_vai_oidc.Session.Crypto.{encrypt_session}
use go_vai_oidc.Setup.{apply_defaults, validate}
use go_vai_oidc.Setup.Construction.{Platform, auth_of, built_from, discover_for, build, new_auth}
use go_vai_oidc.Setup.Usable.{IsUsable, validate_iff}

-- `a` is what New builds of a configuration: the configuration with its defaults is usable with
-- the key of `a`, and discovery for it found the provider of `a`.
abbrev pub IsBuiltOf : Platform → ℤ → Config → Auth → Type 0
IsBuiltOf platform now cfg a =
    (key : Str) × (idp : Idp) × IsUsable platform.decode_secret (apply_defaults cfg) key
    × (discover_for platform now (apply_defaults cfg) ≡ some (ok idp))
    × (a ≡ auth_of platform (apply_defaults cfg) key idp)

built_from-ok :
    (platform : Platform) (cfg : Config) (key : Str) (found : Option (Result Failure Idp))
    {a : Auth}
    → built_from platform cfg key found ≡ some (ok a)
    → (idp : Idp) × (found ≡ some (ok idp)) × (a ≡ auth_of platform cfg key idp)
built_from-ok platform cfg key none h = absurd cc
built_from-ok platform cfg key (some (err f)) h = absurd (err-ne-ok (some-eq h))
built_from-ok platform cfg key (some (ok idp)) h = (idp, refl, sym (ok-injective (some-eq h)))

build-ok :
    (platform : Platform) (now : ℤ) (cfg : Config) (checked : Result Error Str) {a : Auth}
    → build platform now cfg checked ≡ some (ok a)
    → (key : Str) × (idp : Idp) × (checked ≡ ok key)
      × (discover_for platform now cfg ≡ some (ok idp))
      × (a ≡ auth_of platform cfg key idp)
build-ok platform now cfg (err e) h = absurd (err-ne-ok (some-eq h))
build-ok platform now cfg (ok key) h =
    let (idp, found, same) = built_from-ok platform cfg key (discover_for platform now cfg) h in
    (key, idp, refl, found, same)

-- New answers an Auth exactly when the configuration with its defaults is usable and discovery for
-- it finds a provider, and the Auth is made of these.
pub new_auth_iff :
    (platform : Platform) (now : ℤ) (cfg : Config) (a : Auth)
    → (new_auth platform now cfg ≡ some (ok a)) ↔ IsBuiltOf platform now cfg a
unfolding new_auth
new_auth_iff platform now cfg a = (built, builds)
  where
    built : new_auth platform now cfg ≡ some (ok a) → IsBuiltOf platform now cfg a
    built h =
        let (key, idp, checked, found, same) =
          build-ok platform now (apply_defaults cfg)
            (validate platform.decode_secret (apply_defaults cfg)) h in
        (key, idp, (validate_iff _ _ _).0 checked, found, same)

    builds : IsBuiltOf platform now cfg a → new_auth platform now cfg ≡ some (ok a)
    builds (key, idp, usable, found, same) = rw ((validate_iff _ _ _).1 usable, found, same) refl

-- What the handlers rely on of the Auth that New makes of `cfg`.
pub record IsSound (platform : Platform) (cfg : Config) (a : Auth) : Type 0 where
  pub usable : IsUsable platform.decode_secret a.cfg a.session_key
  pub seals :
      (nonce : Str) (p : SessionPayload) (s : Str)
      → a.crypto.marshal p ≡ some s
      → encrypt_session a.crypto a.session_key (some nonce) p
        ≡ ok (a.crypto.encode (nonce ++ a.crypto.gcm_seal a.session_key nonce s))
  pub lands :
      (stored : Str)
      → ((stored ≡ []) × IsLocalPath (post_login_target a.cfg stored))
        ⊎ ((stored ≢ []) × (post_login_target a.cfg stored ≡ stored))
  pub lives : (cfg.session_ttl <ℤ pos 0) ⊎ (pos 0 <ℤ a.cfg.session_ttl)
  pub named : a.cfg.cookie_name ≢ []
  pub prefixed_name :
      a.cfg.cookie_host_prefix ≡ true → BeginsWith a.cfg.cookie_name cookie_host_prefix_text
