-- ===== src/User.antt =====
-- user.go: the identity that a session carries, the landing decision and the role and team lookups.
-- A nil slice or map and an empty one are the same list; the zero time of AuthTime is `none`.
pub mod Laws
use go_vai_oidc.Prelude.{
  ℕ, Bool, true, false, ◌||◌, Option, none, some, List, [], ◌∷◌, if◌then◌else◌,
}
use go_vai_oidc.Prelude.Int.{ℤ}
use go_vai_oidc.Prelude.Text.{Str, codes, str_eq, is_empty}

pub record Membership : Type 0 where
  pub org_id : Str
  pub org_name : Str
  pub org_slug : Str
  pub role : Str
  pub team_ids : List Str
  pub security_officer : Bool

pub record Landing : Type 0 where
  pub decision : Str
  pub url : Str

pub record User : Type 0 where
  pub sub : Str
  pub email : Str
  pub email_verified : Bool
  pub name : Str
  pub org_id : Str
  pub memberships : List Membership
  pub claims : List (Str × Str)
  pub session_id : Str
  pub realm_roles : List Str
  pub auth_time : Option ℤ
  pub landing : Option Landing

abbrev pub landing_decision_onboarding : Str
landing_decision_onboarding = codes "onboarding"

abbrev pub landing_decision_org_selection : Str
landing_decision_org_selection = codes "org_selection"

abbrev pub landing_decision_closed_beta : Str
landing_decision_closed_beta = codes "closed_beta"

unfoldable pub landing_decision_redirects : Str → Bool
unfolding str_eq codes
landing_decision_redirects decision =
    str_eq decision landing_decision_onboarding
    || str_eq decision landing_decision_org_selection
    || str_eq decision landing_decision_closed_beta

-- `Landing.RedirectTarget`: the URL and true, or `none`.
unfoldable pub redirect_target : Option Landing → Option Str
redirect_target none = none
redirect_target (some l) =
    if is_empty l.url
    then none
    else if landing_decision_redirects l.decision
    then some l.url
    else none

unfoldable pub has_role : Str → List Str → Bool
has_role role [] = false
has_role role (r ∷ rs) = str_eq r role || has_role role rs

-- `User.HasRealmRole`, nil receiver included.
unfoldable pub has_realm_role : Option User → Str → Bool
unfolding has_role
has_realm_role none role = false
has_realm_role (some u) role = has_role role u.realm_roles

unfoldable pub teams_in : Str → List Membership → List Str
teams_in org_id [] = []
teams_in org_id (m ∷ ms) = if str_eq m.org_id org_id then m.team_ids else teams_in org_id ms

-- `User.TeamIDsForOrg`
unfoldable pub team_ids_for_org : Option User → Str → List Str
unfolding teams_in
team_ids_for_org none org_id = []
team_ids_for_org (some u) org_id = if is_empty org_id then [] else teams_in org_id u.memberships
