-- ===== src/Discovery/Provider.antt =====
-- oidc.go: `discover`, around go-oidc's NewProvider and the functions of golang.org/x/oauth2, which
-- are parameters. A request without an issuer to accept in place of its URL has an empty override.
use go_vai_oidc.Prelude.{Option, none, some, List, [], ◌++◌, Result, ok, err}
use go_vai_oidc.Prelude.Text.{Str, codes}
use go_vai_oidc.Errors.{Error}
use go_vai_oidc.Idp.{Idp, Token, IdToken, Claim}
use go_vai_oidc.Discovery.{Failure, Round}

-- The arguments of `discover` behind its context.
pub record DiscoveryRequest : Type 0 where
  pub url : Str
  pub client_id : Str
  pub client_secret : Str
  pub callback_url : Str
  pub issuer_override : Str
  pub scopes : List Str

pub record Endpoint : Type 0 where
  pub auth_url : Str
  pub token_url : Str

-- What NewProvider answers: the verifier of raw ID tokens by client, the endpoints, and the
-- end_session_endpoint of the claims where they decode and have one.
pub record Provider : Type 0 where
  pub verifier : Str → Str → Result Error IdToken
  pub endpoint : Endpoint
  pub end_session_endpoint : Option Str

-- oauth2.Config
pub record OAuth2Config : Type 0 where
  pub client_id : Str
  pub client_secret : Str
  pub endpoint : Endpoint
  pub redirect_url : Str
  pub scopes : List Str

-- The functions of oauth2, and the JSON text of a claim.
pub record OAuth2 : Type 0 where
  pub exchange_code : OAuth2Config → Str → Str → Result Error Token
  pub token_source : OAuth2Config → Token → Result Error Token
  pub auth_code_url : OAuth2Config → Str → List (Str × Str) → Str
  pub marshal_claim : Claim → Option Str

abbrev pub or_blank : Option Str → Str
or_blank none = []
or_blank (some s) = s

abbrev pub oauth2_config : DiscoveryRequest → Provider → OAuth2Config
oauth2_config req p = record {
  client_id = req.client_id;
  client_secret = req.client_secret;
  endpoint = p.endpoint;
  redirect_url = req.callback_url;
  scopes = req.scopes;
}

abbrev pub idp_of : OAuth2 → DiscoveryRequest → Provider → Idp
idp_of lib req p =
    let cfg = oauth2_config req p in
    record {
      exchange_code = lib.exchange_code cfg;
      token_source = lib.token_source cfg;
      verifier = some (p.verifier req.client_id);
      marshal_claim = lib.marshal_claim;
      oauth2_auth_code_url = lib.auth_code_url cfg;
      authorization_endpoint = p.endpoint.auth_url;
      end_session_url = or_blank p.end_session_endpoint;
    }

-- The error of `discover`, for a URL that %q does not have to escape.
abbrev pub discovery_failed_with : DiscoveryRequest → Failure → Failure
discovery_failed_with req f = record {
  deadline_exceeded = f.deadline_exceeded;
  text =
      codes "discover issuer \""
      ++ (req.url ++ (codes "\": vai-oidc: OIDC provider discovery failed\n" ++ f.text));
}

-- `discover`, by what NewProvider answers.
unfoldable pub discover : OAuth2 → DiscoveryRequest → Result Failure Provider → Result Failure Idp
discover lib req (err f) = err (discovery_failed_with req f)
discover lib req (ok p) = ok (idp_of lib req p)

-- A round of the retry loop whose attempt is a `discover`.
abbrev pub discover_round : OAuth2 → DiscoveryRequest → Round Provider → Round Idp
discover_round lib req r = record {
  begun = r.begun;
  attempt = λ timeout. discover lib req (r.attempt timeout);
  ended = r.ended;
  random = r.random;
  cancelled = r.cancelled;
}
