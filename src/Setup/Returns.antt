-- ===== src/Setup/Returns.antt =====
-- auth.go: that New returns.
use go_vai_oidc.Prelude.{
  ℕ, suc, ◌≤◌, ◌*◌, ◌≡◌, refl, ap, inl, inr, some, List, [], ◌∷◌, map, Result, ok, err, length,
  arith, Result-cases,
}
use go_vai_oidc.Prelude.Int.{ℤ, pos, ◌≤ℤ◌}
use go_vai_oidc.Config.{Config}
use go_vai_oidc.Idp.{Idp}
use go_vai_oidc.Auth.{Auth}
use go_vai_oidc.Session.Payload.{second}
use go_vai_oidc.Discovery.{Failure, Round}
use go_vai_oidc.Discovery.Provider.{DiscoveryRequest, OAuth2, Provider, discover, discover_round}
use go_vai_oidc.Discovery.Termination.{WellTimed, discover_with_retry-Answers}
use go_vai_oidc.Setup.{apply_defaults, validate}
use go_vai_oidc.Setup.Construction.{
  Platform, SetupError, misconfigured, undiscovered, discovery_request, built_from, auth_of,
  new_auth,
}

module _ (lib : OAuth2) (req : DiscoveryRequest) where
  rounds-length :
      (rounds : List (Round Provider))
      → length (map (discover_round lib req) rounds) ≡ length rounds
  rounds-length [] = refl
  rounds-length (r ∷ rounds) = ap suc (rounds-length rounds)

  rounds-WellTimed :
      (failed : ℕ) (earliest : ℤ) (rounds : List (Round Provider))
      → WellTimed failed earliest rounds
      → WellTimed failed earliest (map (discover_round lib req) rounds)
  rounds-WellTimed failed earliest [] h = tt
  rounds-WellTimed failed earliest (r ∷ rounds) (begins, ends, rest) =
      (begins, ends, rounds-WellTimed (suc failed) _ rounds rest)

-- The rounds that go-oidc is asked in for a configuration.
abbrev pub rounds_for : Platform → Config → List (Round Provider)
rounds_for platform cfg =
    let req = discovery_request cfg in platform.provider_rounds req.issuer_override req.url

built_from-returns :
    (platform : Platform) (cfg : Config) (key : _) (found : Result Failure Idp)
    → (res : Result SetupError Auth) × (built_from platform cfg key (some found) ≡ some res)
built_from-returns platform cfg key (ok idp) = (ok (auth_of platform cfg key idp), refl)
built_from-returns platform cfg key (err f) = (err (undiscovered f), refl)

-- New returns, with an Auth or an error: with a budget of up to the default 90 seconds, a clock that
-- does not run backwards and waits that last as long as asked, sixteen rounds are enough.
pub new_auth-returns :
    (platform : Platform) (now : ℤ) (cfg : Config)
    → (apply_defaults cfg).discovery_retry_budget ≤ℤ pos (90 * second)
    → WellTimed 0 now (rounds_for platform (apply_defaults cfg))
    → 16 ≤ length (rounds_for platform (apply_defaults cfg))
    → (res : Result SetupError Auth) × (new_auth platform now cfg ≡ some res)
unfolding new_auth
new_auth-returns platform now cfg small timed many =
    elim (Result-cases (validate platform.decode_secret (apply_defaults cfg))) [
      | inr (e, bad) ↦ (err (misconfigured e), rw bad refl)
      | inl (key, good) ↦
          let req = discovery_request (apply_defaults cfg) in
          let (found, e) =
            discover_with_retry-Answers (apply_defaults cfg).discovery_retry_budget now
              (discover platform.oauth2 req (platform.provider_once req.issuer_override req.url))
              (map (discover_round platform.oauth2 req) (rounds_for platform (apply_defaults cfg)))
              small (rounds-WellTimed platform.oauth2 req 0 now _ timed)
              (omega (
                arith,
                rounds-length platform.oauth2 req (rounds_for platform (apply_defaults cfg)),
                many,
              )) in
          let (res, made) = built_from-returns platform (apply_defaults cfg) key found in
          (res, rw (good, e) made)
    ]
