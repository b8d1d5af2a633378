-- ===== src/Obol.antt =====
-- obolresolver/obolresolver.go: the UserResolver that asks the Obol service. The HTTP client,
-- encoding/json, net/http's request check and net/url are parameters. An error that wraps another
-- is the wrapped one; the resolver writes into the user that it is given and answers it.
pub mod Resolver
pub mod Landings
pub mod Answers
pub mod Orgs
pub mod Outages
use go_vai_oidc.Prelude.{
  ℕ, zero, suc, ◌*◌, Bool, true, false, ◌&&◌, ◌||◌, not, Option, none, some, List, [], ◌∷◌, ◌++◌,
  map, ltb, leb, if◌then◌else◌, Result, ok, err, ◌>>=◌, any, length, take,
}
use go_vai_oidc.Prelude.Int.{ℤ, pos, negsuc}
use go_vai_oidc.Prelude.Text.{Str, codes, str_eq, is_empty, to_lower, trim_space, trim_right_byte}
use go_vai_oidc.Prelude.Decimal.{itoa}
use go_vai_oidc.Errors.{Error, message}
use go_vai_oidc.User.{User, Membership, Landing, landing_decision_redirects, redirect_target}
use go_vai_oidc.Config.{Admission, UserResolver, login, revalidation, unspecified}
use go_vai_oidc.Session.Payload.{second}

-- `IdentityEnsureRequest`
pub record IdentityEnsureRequest : Type 0 where
  pub sub : Str
  pub email : Str
  pub name : Str
  pub admission : Admission
  pub email_verified : Bool

-- `IdentityEnsureMembership`
pub record IdentityEnsureMembership : Type 0 where
  pub org_id : Str
  pub org_name : Str
  pub org_slug : Str
  pub role : Str
  pub team_ids : List Str
  pub security_officer : Bool

-- `IdentityEnsureLanding`
pub record IdentityEnsureLanding : Type 0 where
  pub decision : Str
  pub landing_url : Str

-- `IdentityEnsureResponse`
pub record IdentityEnsureResponse : Type 0 where
  pub user_id : Str
  pub memberships : List IdentityEnsureMembership
  pub landing : Option IdentityEnsureLanding

-- `obolEnvelope`: the raw data, and the code and the message of an error.
pub record ObolEnvelope : Type 0 where
  pub data_text : Str
  pub error : Option (Str × Str)

-- The request that goes out and what comes back: the bytes of the body, and the error that reading
-- meets behind them, if any.
pub record Outgoing : Type 0 where
  pub endpoint : Str
  pub body : Str
  pub headers : List (Str × Str)
  pub timeout : ℤ

pub record Incoming : Type 0 where
  pub status_code : ℕ
  pub body : Str
  pub read_error : Option Error

abbrev pub HttpClient : Type 0
HttpClient = Outgoing → Result Error Incoming

-- `Config`; `client` is `none` for a nil one.
pub record ObolConfig : Type 0 where
  pub base_url : Str
  pub client : Option HttpClient
  pub timeout : ℤ
  pub allow_empty_membership : Bool
  pub allowed_landing_hosts : List Str

-- The scheme and the host of a URL that parses, and whether it carries credentials.
pub record ParsedUrl : Type 0 where
  pub scheme : Str
  pub host : Str
  pub has_userinfo : Bool

pub record Wire : Type 0 where
  pub marshal : IdentityEnsureRequest → Result Error Str
  pub check_endpoint : Str → Result Error (Unit {0})
  pub envelope : Str → Result Error ObolEnvelope
  pub response : Str → Result Error IdentityEnsureResponse
  pub parse_url : Str → Option ParsedUrl

-- `toVaiMemberships`
unfoldable pub to_vai_memberships : List IdentityEnsureMembership → List Membership
to_vai_memberships [] = []
to_vai_memberships (m ∷ ms) =
    record {
      org_id = m.org_id;
      org_name = m.org_name;
      org_slug = m.org_slug;
      role = m.role;
      team_ids = m.team_ids;
      security_officer = m.security_officer;
    }
    ∷ to_vai_memberships ms

-- `truncate`
unfoldable pub truncate : Str → ℕ → Str
truncate s n = if leb (length s) n then s else take n s ++ codes "..."

-- `normalizeHosts`
unfoldable pub normalize_hosts : List Str → List Str
normalize_hosts [] = []
normalize_hosts (h ∷ hs) =
    let rest = normalize_hosts hs in
    let host = to_lower (trim_space h) in if is_empty host then rest else host ∷ rest

-- `hostAllowed`
unfoldable pub host_allowed : Str → List Str → Bool
host_allowed host allowed = any (λ a. str_eq (to_lower host) a) allowed

abbrev pub pins : List Str → Bool
pins [] = false
pins (h ∷ hs) = true

abbrev pub is_web_url : List Str → Option ParsedUrl → Bool
is_web_url allowed none = false
is_web_url allowed (some u) =
    (str_eq u.scheme (codes "http") || str_eq u.scheme (codes "https"))
    && not (is_empty u.host || u.has_userinfo)
    && not (pins allowed && not (host_allowed u.host allowed))

-- `admitLanding`
unfoldable pub admit_landing :
    (Str → Option ParsedUrl) → Option IdentityEnsureLanding → List Str → Option Landing
admit_landing parse none allowed = none
admit_landing parse (some l) allowed = some (record {
  decision = l.decision;
  url =
      if is_empty l.landing_url
      then []
      else if not (landing_decision_redirects l.decision)
      then []
      else if is_web_url allowed (parse l.landing_url)
      then l.landing_url
      else [];
})
