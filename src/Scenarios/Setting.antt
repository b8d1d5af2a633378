-- ===== src/Scenarios/Setting.antt =====
-- The constructor and the handle of the background start, on concrete input.
use go_vai_oidc.Prelude.{
  ℕ, zero, suc, ◌*◌, ◌≤◌, ◌≡◌, ◌≢◌, ◌↔◌, refl, ap, true, false, Option, none, some, List, [], ◌∷◌,
  map, Result, ok, err, arith, length,
}
use go_vai_oidc.Prelude.Int.{ℤ, pos, negsuc, ◌+ℤ◌}
use go_vai_oidc.Prelude.Text.{Str, codes}
use go_vai_oidc.Errors.{just, invalid_config, session_key_invalid}
use go_vai_oidc.Config.{Config}
use go_vai_oidc.Auth.{Auth}
use go_vai_oidc.Discovery.{Failure, Round, base_delay, with_jitter}
use go_vai_oidc.Discovery.Provider.{OAuth2, Provider, idp_of}
use go_vai_oidc.Discovery.Termination.{WellTimed, lasts}
use go_vai_oidc.Setup.{apply_defaults, validate}
use go_vai_oidc.Setup.Construction.{
  Platform, SetupError, misconfigured, auth_of, new_auth, discovery_request,
}
use go_vai_oidc.Setup.Usable.{IsUsable, validate_iff}
use go_vai_oidc.Setup.Returns.{new_auth-returns}
use go_vai_oidc.Deferred.{new_background, run, get, error_of}
use go_vai_oidc.Deferred.Schedules.{Answers, Returns, Got, get_iff, error_of_iff}
use go_vai_oidc.Scenarios.World.{codec, config, session, urls, fresh, id_token_of, noon}

abbrev oauth2 : OAuth2
oauth2 = record {
  exchange_code = λ cfg code verifier. ok fresh;
  token_source = λ cfg t. ok fresh;
  auth_code_url = λ cfg state extra. cfg.endpoint.auth_url;
  marshal_claim = λ c. none;
}

abbrev keycloak : Provider
keycloak = record {
  verifier = λ client raw. ok (id_token_of (codes "ada"));
  endpoint = record {
    auth_url = codes "https://id.example/auth";
    token_url = codes "https://id.example/token";
  };
  end_session_endpoint = some (codes "https://id.example/logout");
}

abbrev down : Failure
down = record { deadline_exceeded = true; text = codes "context deadline exceeded" }

-- Rounds that follow each other at once, each behind its wait, and never find the provider.
abbrev clockwork : ℕ → ℕ → ℤ → List (Round Provider)
clockwork zero failed earliest = []
clockwork (suc n) failed earliest =
    record {
      begun = earliest;
      attempt = λ timeout. err down;
      ended = earliest;
      random = λ n. 0;
      cancelled = none;
    }
    ∷ clockwork n (suc failed) (earliest +ℤ pos (lasts (with_jitter (λ n. 0) (base_delay failed))))

clockwork-WellTimed :
    (n failed : ℕ) (earliest : ℤ) → WellTimed failed earliest (clockwork n failed earliest)
clockwork-WellTimed zero failed earliest = tt
clockwork-WellTimed (suc n) failed earliest =
    (omega arith, omega arith, clockwork-WellTimed n (suc failed) _)

clockwork-length : (n failed : ℕ) (earliest : ℤ) → length (clockwork n failed earliest) ≡ n
clockwork-length zero failed earliest = refl
clockwork-length (suc n) failed earliest = ap suc (clockwork-length n (suc failed) _)

abbrev platform : Platform
platform = record {
  decode_secret = λ s. some (codes "0123456789abcdef0123456789abcdef");
  crypto = codec session;
  urls = urls;
  sha256 = λ s. s;
  oauth2 = oauth2;
  provider_once = λ override url. ok keycloak;
  provider_rounds = λ override url. clockwork 16 0 noon;
}

-- A single attempt at discovery, and the defaults for all that is left out.
abbrev sparse : Config
sparse = record config {
  post_login_redirect = [];
  login_path = [];
  session_ttl = pos 0;
  cookie_name = [];
  cookie_host_prefix = true;
  discovery_retry_budget = negsuc 0;
}

abbrev built : Auth
built =
    auth_of platform (apply_defaults sparse) (codes "0123456789abcdef0123456789abcdef")
      (idp_of oauth2 (discovery_request (apply_defaults sparse)) keycloak)

validate_iff_example :
    (validate platform.decode_secret config ≡ ok (codes "0123456789abcdef0123456789abcdef"))
    ↔ IsUsable platform.decode_secret config (codes "0123456789abcdef0123456789abcdef")
validate_iff_example =
    validate_iff platform.decode_secret config (codes "0123456789abcdef0123456789abcdef")

short_key_refused : validate (λ s. some (codes "short")) config ≡ err (just session_key_invalid)
unfolding validate go_vai_oidc.Setup.require_all codes
short_key_refused = refl

new_auth-returns_example :
    (res : Result SetupError Auth) × (new_auth platform noon config ≡ some res)
unfolding apply_defaults
new_auth-returns_example =
    new_auth-returns platform noon config (omega arith) (clockwork-WellTimed 16 0 noon)
      (omega arith)

abbrev refusal : SetupError
refusal = misconfigured (just invalid_config)

abbrev late : Answers
late = none ∷ some (err refusal) ∷ none ∷ []

get_iff_example :
    (get (run late new_background).handle ≡ some (none, some refusal))
    ↔ Got (none, some refusal) late
get_iff_example = get_iff late (none, some refusal)

get_returns : get (run late new_background).handle ≡ some (none, some refusal)
unfolding get run
get_returns = refl

-- The error is there a turn before the handle is ready.
error_of_iff_example :
    (error_of (run (none ∷ some (err refusal) ∷ []) new_background).handle ≡ some refusal)
    ↔ ((after : Answers) × Returns (err refusal) (none ∷ some (err refusal) ∷ []) after)
error_of_iff_example = error_of_iff (none ∷ some (err refusal) ∷ []) refusal

get_blocks : get (run (none ∷ some (err refusal) ∷ []) new_background).handle ≡ none
unfolding get run
get_blocks = refl
