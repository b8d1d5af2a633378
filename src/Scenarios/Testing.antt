-- ===== src/Scenarios/Testing.antt =====
-- A consumer's test: a session made for ada, on concrete input.
use go_vai_oidc.Prelude.{◌≡◌, refl, none, some, [], ◌∷◌, ok, arith}
use go_vai_oidc.Prelude.Int.{pos, ◌+ℤ◌}
use go_vai_oidc.Prelude.Text.{Str, codes}
use go_vai_oidc.User.{User}
use go_vai_oidc.Auth.{Auth}
use go_vai_oidc.Session.Payload.{SessionPayload, unix, unix_or_zero, time_or_zero, from_user}
use go_vai_oidc.Session.Crypto.{encrypt_session}
use go_vai_oidc.Discovery.Provider.{OAuth2}
use go_vai_oidc.Revalidate.{Flights}
use go_vai_oidc.Handlers.{passed, require_session}
use go_vai_oidc.Fixture.{
  test_config, blank_payload, zero_provider, new_test_auth, test_session_cookie,
}
use go_vai_oidc.Fixture.Sessions.{test_session_cookie-require_session}
use go_vai_oidc.Scenarios.World.{
  ada, codec, codec-IsFaithful, fresh, key, urls, noon, five_past, twelve_bytes, sealed, request,
}

abbrev oauth2 : OAuth2
oauth2 = record {
  exchange_code = λ cfg code verifier. ok fresh;
  token_source = λ cfg t. ok fresh;
  auth_code_url = λ cfg state extra. cfg.endpoint.auth_url;
  marshal_claim = λ c. none;
}

abbrev ada_at_noon : User
ada_at_noon = record ada { auth_time = some noon }

abbrev ada_payload : SessionPayload
ada_payload = record (blank_payload (pos 1700003600) (pos 1700000000)) { sub = codes "ada" }

abbrev test_auth : Auth
test_auth = record {
  cfg = test_config;
  session_key = key;
  crypto = codec ada_payload;
  idp = zero_provider oauth2;
  urls = urls;
  sha256 = λ s. s;
}

abbrev no_flights : Flights
no_flights = record { fly_grant = λ k r. r; fly_resolve = λ k r. r }

abbrev test_cookie : Str × Str
test_cookie = (codes "vai_test_session", sealed)

abbrev other_cookie : Str × Str
other_cookie = (codes "theme", codes "dark")

test_session_cookie-require_session_example :
    require_session test_auth no_flights none five_past
      (request (test_cookie ∷ other_cookie ∷ []) [])
    ≡ passed [] (record {
      user =
          some (record ada { auth_time = time_or_zero (unix_or_zero (some noon)); landing = none });
      session = some (ok ada_payload);
    })
unfolding new_test_auth test_session_cookie encrypt_session from_user unix ◌+ℤ◌ codes unix_or_zero
test_session_cookie-require_session_example =
    test_session_cookie-require_session (codec ada_payload) urls (λ s. s) oauth2 key twelve_bytes
      test_auth no_flights none noon five_past ada_at_noon test_cookie (other_cookie ∷ [])
      (request (test_cookie ∷ other_cookie ∷ []) []) refl refl refl (codec-IsFaithful ada_payload)
      refl (omega arith)
