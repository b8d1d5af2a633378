-- ===== src/Scenarios/Staffing.antt =====
-- The staff policy, on concrete input.
use go_vai_oidc.Prelude.{◌≡◌, ◌↔◌, refl, true, Option, none, some, List, [], ◌∷◌, ok}
use go_vai_oidc.Prelude.Text.{Str, codes}
use go_vai_oidc.Cookie.{Request}
use go_vai_oidc.User.{User}
use go_vai_oidc.Session.Payload.{SessionPayload}
use go_vai_oidc.Revalidate.{Flights}
use go_vai_oidc.Handlers.{passed, with_session, require_session}
use go_vai_oidc.Staff.{StaffPolicy, Mail, validate, check, require_staff}
use go_vai_oidc.Staff.Policy.{IsStaff, require_staff_iff}
use go_vai_oidc.Scenarios.World.{ada, session, noon, deployment, request, session_cookie}

abbrev operators : StaffPolicy
operators = record {
  domain = codes " @Work.example";
  roles = codes "admin" ∷ codes "manager" ∷ [];
  forbidden = none;
}

abbrev as_is : Mail
as_is s = some ([], s)

abbrev manager : User
manager = record ada {
  email = codes "ada@work.example";
  email_verified = true;
  realm_roles = codes "manager" ∷ [];
}

manager_passes : check as_is operators (some manager) ≡ ok tt
unfolding check validate go_vai_oidc.Staff.normalized_domain go_vai_oidc.Prelude.Text.to_lower
    go_vai_oidc.Prelude.Text.cut_prefix codes go_vai_oidc.Prelude.Text.trim_right
    go_vai_oidc.Prelude.Text.trim_left go_vai_oidc.Prelude.Text.contains_any
    go_vai_oidc.Prelude.Text.contains go_vai_oidc.Staff.strict_email_domain
    go_vai_oidc.Prelude.Text.str_eq go_vai_oidc.Prelude.Text.equal_fold
    go_vai_oidc.Admission.email_domain_of go_vai_oidc.User.has_realm_role
manager_passes = refl

abbrev managed : SessionPayload
managed = record session { email = codes "ada@work.example"; ev = true; rls = codes "manager" ∷ [] }

abbrev alone : Flights
alone = record { fly_grant = λ k r. r; fly_resolve = λ k r. r }

require_staff_iff_example :
    (require_staff
        (deployment (codes "ada") managed)
        alone
        none
        noon
        as_is
        operators
        (request session_cookie [])
      ≡ passed [] (with_session managed))
    ↔ ((require_session
            (deployment (codes "ada") managed)
            alone
            none
            noon
            (request session_cookie [])
          ≡ passed [] (with_session managed))
        × ((u : User) × (with_session managed).user ≡ some u × IsStaff as_is operators u))
require_staff_iff_example =
    require_staff_iff (deployment (codes "ada") managed) alone none noon as_is operators
      (request session_cookie []) [] (with_session managed)

managed_passes :
    require_staff
      (deployment (codes "ada") managed)
      alone
      none
      noon
      as_is
      operators
      (request session_cookie [])
    ≡ passed [] (with_session managed)
unfolding require_staff require_session go_vai_oidc.Flow.session_of
    go_vai_oidc.Session.Store.read_session_cookie go_vai_oidc.Cookie.cookie
    go_vai_oidc.Prelude.Text.cut_prefix go_vai_oidc.Session.Crypto.decrypt_session
    go_vai_oidc.Session.Payload.unix go_vai_oidc.Revalidate.maybe_revalidate
    go_vai_oidc.Revalidate.floor_due go_vai_oidc.Prelude.Int.◌-ℤ◌
    go_vai_oidc.Session.Payload.from_unix go_vai_oidc.Revalidate.resolve_retry_due
    go_vai_oidc.Session.Payload.to_user check validate go_vai_oidc.Staff.normalized_domain
    go_vai_oidc.Prelude.Text.to_lower codes go_vai_oidc.Prelude.Text.trim_right
    go_vai_oidc.Prelude.Text.trim_left go_vai_oidc.Prelude.Text.contains_any
    go_vai_oidc.Prelude.Text.contains go_vai_oidc.Staff.strict_email_domain
    go_vai_oidc.Prelude.Text.str_eq go_vai_oidc.Prelude.Text.equal_fold
    go_vai_oidc.Admission.email_domain_of go_vai_oidc.User.has_realm_role
managed_passes = refl
