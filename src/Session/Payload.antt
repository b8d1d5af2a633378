-- ===== src/Session/Payload.antt =====
-- session.go: the payload and its two conversions. `exp`, `last_validated`, `resolve_retry_at`,
-- `access_token_exp` and `aut` are unix seconds.
use go_vai_oidc.Prelude.{ℕ, Bool, Option, none, some, List, if◌then◌else◌}
use go_vai_oidc.Prelude.Int.{ℤ, pos, div_ℤ, scale, leb_ℤ}
use go_vai_oidc.Prelude.Text.{Str, codes, str_eq}
use go_vai_oidc.User.{Membership, User}

pub record SessionPayload : Type 0 where
  pub sub : Str
  pub email : Str
  pub ev : Bool
  pub name : Str
  pub org_id : Str
  pub mbs : List Membership
  pub claims : List (Str × Str)
  pub rls : List Str
  pub sid : Str
  pub id_token : Str
  pub exp : ℤ
  pub access_token : Str
  pub refresh_token : Str
  pub access_token_exp : ℤ
  pub last_validated : ℤ
  pub resolve_retry_at : ℤ
  pub src : Str
  pub aut : ℤ

abbrev pub second : ℕ
second = 1000000000

-- Time.Unix() of a time in nanoseconds since the epoch, and time.Unix(s, 0).
unfoldable pub unix : ℤ → ℤ
unfolding div_ℤ
unix t = div_ℤ t second

unfoldable pub from_unix : ℤ → ℤ
unfolding scale
from_unix s = scale s second

-- `unixOrZero` and `timeOrZero` of stepup.go.
unfoldable pub unix_or_zero : Option ℤ → ℤ
unfolding unix
unix_or_zero none = pos 0
unix_or_zero (some t) = unix t

unfoldable pub time_or_zero : ℤ → Option ℤ
unfolding from_unix
time_or_zero sec = if leb_ℤ sec (pos 0) then none else some (from_unix sec)

abbrev pub session_source_grant : Str
session_source_grant = codes "grant"

-- `isGrantMinted`; every caller holds a payload that is not nil.
unfoldable pub is_grant_minted : SessionPayload → Bool
unfolding str_eq codes
is_grant_minted p = str_eq p.src session_source_grant

unfoldable pub to_user : SessionPayload → User
unfolding time_or_zero
to_user p = record {
  sub = p.sub;
  email = p.email;
  email_verified = p.ev;
  name = p.name;
  org_id = p.org_id;
  memberships = p.mbs;
  claims = p.claims;
  session_id = p.sid;
  realm_roles = p.rls;
  auth_time = time_or_zero p.aut;
  landing = none;
}

unfoldable pub from_user : SessionPayload → User → SessionPayload
from_user p u = record p {
  sub = u.sub;
  email = u.email;
  ev = u.email_verified;
  name = u.name;
  org_id = u.org_id;
  mbs = u.memberships;
  claims = u.claims;
  rls = u.realm_roles;
  sid = u.session_id;
}
