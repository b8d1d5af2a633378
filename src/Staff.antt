-- ===== src/Staff.antt =====
-- staff.go: the staff policy and the middleware that enforces it. net/mail's ParseAddress is a
-- parameter: the display name and the address, or none for its error.
pub mod Policy
pub mod Vaudience
pub mod Reasons
use go_vai_oidc.Prelude.{
  ℕ, Bool, true, false, ◌&&◌, ◌||◌, not, Option, none, some, List, [], ◌∷◌, ◌++◌, leb, ◌==◌,
  if◌then◌else◌, Result, ok, err, ◌>>=◌, any,
}
use go_vai_oidc.Prelude.Int.{ℤ}
use go_vai_oidc.Prelude.Text.{
  Str, codes, str_eq, is_empty, contains, contains_any, cut_prefix, to_lower, equal_fold,
  trim_space,
}
use go_vai_oidc.Errors.{
  Error, just, sentinel, error_is, no_session, not_staff, staff_role_missing, staff_policy_invalid,
  email_claim_missing, email_domain_mismatch, email_not_verified,
}
use go_vai_oidc.Admission.{email_domain_of}
use go_vai_oidc.Cookie.{SetCookie, Request}
use go_vai_oidc.User.{User, has_realm_role}
use go_vai_oidc.Auth.{Auth}
use go_vai_oidc.Revalidate.{Flights}
use go_vai_oidc.Flow.{Answer, refuse}
use go_vai_oidc.Handlers.{Context, Gate, refused, passed, require_session}

-- `StaffPolicy`; `forbidden` is what its handler answers, `none` for a nil one.
pub record StaffPolicy : Type 0 where
  pub domain : Str
  pub roles : List Str
  pub forbidden : Option Answer

abbrev pub without_at : Str → Option Str → Str
without_at s none = s
without_at s (some rest) = rest

-- `StaffPolicy.normalizedDomain`
unfoldable pub normalized_domain : StaffPolicy → Str
normalized_domain p =
    let s = trim_space p.domain in to_lower (without_at s (cut_prefix s (codes "@")))

abbrev pub is_domain : Str → Bool
is_domain d = not (is_empty d) && not (contains_any d (codes "@ \t\r\n")) && contains d (codes ".")

abbrev pub names_role : List Str → Bool
names_role roles = any (λ r. not (is_empty (trim_space r))) roles

-- `StaffPolicy.Validate`
unfoldable pub validate : StaffPolicy → Result Error (Unit {0})
validate p =
    if is_domain (normalized_domain p)
    then (if names_role p.roles then ok tt else err (just staff_policy_invalid))
    else err (just staff_policy_invalid)

abbrev pub Mail : Type 0
Mail = Str → Option (Str × Str)

abbrev pub bare : Str → Option (Str × Str) → Option Str
bare email none = none
bare email (some (name, address)) =
    if is_empty name && equal_fold address email
    then (if is_empty (email_domain_of address) then none else some (email_domain_of address))
    else none

-- `strictEmailDomain`
unfoldable pub strict_email_domain : Mail → Str → Option Str
strict_email_domain parse email =
    if not (is_empty email) && str_eq email (trim_space email)
    then bare email (parse email)
    else none

abbrev pub not_staff_for : Bool → Error → Result Error (Unit {0})
not_staff_for true why = ok tt
not_staff_for false why = err (sentinel not_staff ∷ why)

abbrev pub in_domain : StaffPolicy → Option Str → Result Error (Unit {0})
in_domain p none = err (sentinel not_staff ∷ just email_claim_missing)
in_domain p (some domain) =
    not_staff_for (str_eq domain (normalized_domain p)) (just email_domain_mismatch)

abbrev pub holds_role : StaffPolicy → User → Bool
holds_role p u = any (λ role. not (is_empty role) && has_realm_role (some u) role) p.roles

abbrev pub check_user : Mail → StaffPolicy → Option User → Result Error (Unit {0})
check_user parse p none = err (just no_session)
check_user parse p (some u) =
    not_staff_for u.email_verified (just email_not_verified) >>= λ verified.
    (in_domain p (strict_email_domain parse u.email) >>= λ domain.
    not_staff_for (holds_role p u) (just staff_role_missing))

-- `StaffPolicy.Check`
unfoldable pub check : Mail → StaffPolicy → Option User → Result Error (Unit {0})
check parse p user = validate p >>= λ valid. check_user parse p user

abbrev pub forbidden_answer : Option Answer → Answer
forbidden_answer none = refuse 403 (codes "staff access required")
forbidden_answer (some answer) = answer

abbrev pub admit_staff : StaffPolicy → List SetCookie → Context → Result Error (Unit {0}) → Gate
admit_staff p cs ctx (ok t) = passed cs ctx
admit_staff p cs ctx (err e) =
    refused (record { cookies = cs; answer = forbidden_answer p.forbidden })

abbrev pub staff_gate : Mail → StaffPolicy → Gate → Gate
staff_gate parse p (refused response) = refused response
staff_gate parse p (passed cs ctx) = admit_staff p cs ctx (check parse p ctx.user)

-- `RequireStaff`
unfoldable pub require_staff : Auth → Flights → Option Str → ℤ → Mail → StaffPolicy → Request → Gate
require_staff a flights rand now parse p r =
    staff_gate parse p (require_session a flights rand now r)
