-- ===== src/Obol/Resolver.antt =====
-- obolresolver/obolresolver.go: one call of the service, and the function that New returns.
use go_vai_oidc.Prelude.{
  ℕ, zero, suc, ◌*◌, Bool, true, false, ◌||◌, not, Option, none, some, List, [], ◌∷◌, ◌++◌, ltb,
  leb, if◌then◌else◌, Result, ok, err, ◌>>=◌, length, take,
}
use go_vai_oidc.Prelude.Int.{ℤ, pos, negsuc}
use go_vai_oidc.Prelude.Text.{Str, codes, is_empty, trim_right_byte}
use go_vai_oidc.Prelude.Decimal.{itoa}
use go_vai_oidc.Errors.{Error, message}
use go_vai_oidc.User.{User, Landing, redirect_target}
use go_vai_oidc.Config.{Admission, UserResolver}
use go_vai_oidc.Session.Payload.{second}
use go_vai_oidc.Obol.{
  IdentityEnsureRequest, IdentityEnsureMembership, IdentityEnsureResponse, ObolEnvelope, Incoming,
  HttpClient, ObolConfig, Wire, to_vai_memberships, truncate, normalize_hosts, admit_landing,
}

abbrev pub without_org : Bool → User → Option Str → Option User
without_org allow_empty u (some url) = some u
without_org true u none = some u
without_org false u none = none

-- The end of the resolver: the user that an answer of the service makes, or none.
unfoldable pub placed : Bool → User → Option Landing → List IdentityEnsureMembership → Option User
unfolding to_vai_memberships
placed allow_empty u landing [] =
    without_org allow_empty (record u { landing = landing }) (redirect_target landing)
placed allow_empty u landing (m ∷ ms) =
    some
      (record u { memberships = to_vai_memberships (m ∷ ms); org_id = m.org_id; landing = landing })

abbrev pub failed : Str → Error
failed text = message text ∷ []

abbrev pub body_limit : ℕ
body_limit = 64 * 1024

-- io.ReadAll behind io.LimitReader: an error behind the limit is not met.
unfoldable pub read_limited : Incoming → Result Error Str
read_limited r =
    if ltb (length r.body) body_limit then whole r.read_error else ok (take body_limit r.body)
  where
    whole : Option Error → Result Error Str
    whole none = ok r.body
    whole (some e) = err e

abbrev pub is_success : ℕ → Bool
is_success code = not (ltb code 200 || leb 300 code)

abbrev pub check_status : Str → ℕ → Str → Result Error (Unit {0})
check_status endpoint code body =
    if is_success code
    then ok tt
    else err (
        failed (
          codes "obolresolver: "
          ++ (endpoint
              ++ (codes " returned " ++ (itoa code ++ (codes ": " ++ truncate body 200))))))

-- The dash of the message is the three bytes of U+2014.
abbrev pub check_envelope : ObolEnvelope → Result Error Str
check_envelope env = elim env.error [
  | none ↦ ok env.data_text
  | some (code, text) ↦ err (
      failed (
        codes "obolresolver: obol error "
        ++ (code ++ (codes " " ++ (226 ∷ 128 ∷ 148 ∷ (codes " " ++ text))))))
]

abbrev pub ensure_request : Admission → User → IdentityEnsureRequest
ensure_request kind u = record {
  sub = u.sub;
  email = u.email;
  name = u.name;
  admission = kind;
  email_verified = u.email_verified;
}

abbrev pub request_headers : List (Str × Str)
request_headers =
    (codes "Content-Type", codes "application/json")
    ∷ (codes "Accept", codes "application/json")
    ∷ (codes "X-Obol-Client-Version", codes "go-vai-oidc/0.36.0")
    ∷ []

abbrev pub obol_endpoint : ObolConfig → Str
obol_endpoint cfg = trim_right_byte b'/' cfg.base_url ++ codes "/api/v1/identity/ensure"

abbrev pub obol_timeout : ℤ → ℤ
obol_timeout (pos zero) = pos (5 * second)
obol_timeout (pos (suc n)) = pos (suc n)
obol_timeout (negsuc n) = negsuc n

-- One call of the service.
unfoldable pub ensure :
    Wire → ObolConfig → HttpClient → Admission → User → Result Error IdentityEnsureResponse
ensure wire cfg client kind u = do
  body ← wire.marshal (ensure_request kind u)
  checked ← wire.check_endpoint (obol_endpoint cfg)
  response ← client (record {
    endpoint = obol_endpoint cfg;
    body = body;
    headers = request_headers;
    timeout = obol_timeout cfg.timeout;
  })
  text ← read_limited response
  success ← check_status (obol_endpoint cfg) response.status_code text
  env ← wire.envelope text
  inner ← check_envelope env
  wire.response inner

abbrev pub user_is_nil : Str
user_is_nil = codes "obolresolver: user is nil"

-- The function that `New` returns for a client.
unfoldable pub resolve : Wire → ObolConfig → HttpClient → UserResolver
resolve wire cfg client kind none = err (failed user_is_nil)
resolve wire cfg client kind (some u) = do
  inner ← ensure wire cfg client kind u
  ok (
      placed cfg.allow_empty_membership u
        (admit_landing wire.parse_url inner.landing (normalize_hosts cfg.allowed_landing_hosts))
        inner.memberships)

abbrev pub client_is_nil : Str
client_is_nil =
    codes "obolresolver: Config.Client is nil "
    ++ (226 ∷ 128 ∷ 148 ∷ codes " supply a charonmw.Client or *http.Client")

abbrev pub resolver_of : Wire → ObolConfig → Option HttpClient → UserResolver
resolver_of wire cfg none kind user = err (failed client_is_nil)
resolver_of wire cfg (some client) kind user = resolve wire cfg client kind user

-- `New`: no resolver without a base URL.
unfoldable pub new_resolver : Wire → ObolConfig → Option UserResolver
new_resolver wire cfg =
    if is_empty cfg.base_url then none else some (resolver_of wire cfg cfg.client)
