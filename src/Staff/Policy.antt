-- ===== src/Staff/Policy.antt =====
-- staff.go: who passes the staff policy.
use go_vai_oidc.Prelude.{
  Bool, true, false, ◌&&◌, not, Option, none, some, List, [], ◌∷◌, ◌≡◌, refl, sym, ap, ◌∙◌, ◌↔◌,
  inl, inr, Result, ok, err, >>=-eq-ok, err-ne-ok, any, arith, Bool-cases, subst,
}
use mathlib.Core.List.{Memᴰ}
use go_vai_oidc.Prelude.Int.{ℤ}
use go_vai_oidc.Prelude.Text.{Str, str_eq_iff, str_eq_self, is_empty}
use go_vai_oidc.Errors.{Error, just, email_not_verified, staff_role_missing, email_domain_mismatch}
use go_vai_oidc.Cookie.{SetCookie, Request}
use go_vai_oidc.User.{User, has_realm_role, has_role}
use go_vai_oidc.User.Laws.{has_role→Mem, Mem→has_role}
use go_vai_oidc.Auth.{Auth}
use go_vai_oidc.Revalidate.{Flights}
use go_vai_oidc.Flow.{Response}
use go_vai_oidc.Handlers.{Context, Gate, refused, passed, require_session}
use go_vai_oidc.Staff.{
  StaffPolicy, normalized_domain, validate, Mail, strict_email_domain, not_staff_for, in_domain,
  check, admit_staff, staff_gate, require_staff,
}

-- A role that the policy names and the user holds.
abbrev pub SharesRole : StaffPolicy → User → Type 0
SharesRole p u =
    (role : Str) × Memᴰ role p.roles × (is_empty role ≡ false) × Memᴰ role u.realm_roles

-- A verified user with an address in the domain and a role of the policy.
abbrev pub IsStaff : Mail → StaffPolicy → User → Type 0
IsStaff parse p u =
    (validate p ≡ ok tt)
    × (u.email_verified ≡ true)
    × (strict_email_domain parse u.email ≡ some (normalized_domain p))
    × SharesRole p u

not_staff_for-ok : (b : Bool) (why : Error) {t : Unit {0}} → not_staff_for b why ≡ ok t → b ≡ true
not_staff_for-ok true why h = refl
not_staff_for-ok false why h = absurd (err-ne-ok h)

in_domain-ok :
    (p : StaffPolicy) (o : Option Str) {t : Unit {0}}
    → in_domain p o ≡ ok t
    → o ≡ some (normalized_domain p)
in_domain-ok p none h = absurd (err-ne-ok h)
in_domain-ok p (some d) h =
    ap some
      ((str_eq_iff d (normalized_domain p)).0 (not_staff_for-ok _ (just email_domain_mismatch) h))

shared_role :
    (u : User) (roles : List Str)
    → any (λ role. not (is_empty role) && has_realm_role (some u) role) roles ≡ true
    → (role : Str) × Memᴰ role roles × (is_empty role ≡ false) × Memᴰ role u.realm_roles
unfolding has_realm_role
shared_role u [] h = ground arith
shared_role u (r ∷ rs) h = elim (Bool-cases (not (is_empty r) && has_role r u.realm_roles)) [
  | inl here ↦ (r, Memᴰ.head refl, ground arith, has_role→Mem r u.realm_roles (ground arith))
  | inr there ↦
      let (role, m, full, held) = shared_role u rs (ground arith) in (role, Memᴰ.tail m, full, held)
]

role_shared :
    (u : User) {role : Str} {roles : List Str}
    → Memᴰ role roles
    → is_empty role ≡ false
    → Memᴰ role u.realm_roles
    → any (λ role. not (is_empty role) && has_realm_role (some u) role) roles ≡ true
unfolding has_realm_role
role_shared u {role} (Memᴰ.head {x} e) full held =
    let there : has_role x u.realm_roles ≡ true =
      subst (λ r. has_role r u.realm_roles ≡ true) e (Mem→has_role held) in
    let whole : is_empty x ≡ false = subst (λ r. is_empty r ≡ false) e full in
    rw (whole, there) refl
role_shared u (Memᴰ.tail m) full held = ground (arith, role_shared u m full held)

-- A user passes the policy exactly when the policy is valid, the address is verified, it is a bare
-- address whose domain is the policy's, and the user holds a role that the policy names.
pub check_iff :
    (parse : Mail) (p : StaffPolicy) (u : User)
    → (check parse p (some u) ≡ ok tt) ↔ IsStaff parse p u
unfolding check
check_iff parse p u = (opened, passed_all)
  where
    opened : check parse p (some u) ≡ ok tt → IsStaff parse p u
    opened h =
        let (t, valid, h1) = >>=-eq-ok (validate p) _ h in
        let (t2, verified, h2) =
          >>=-eq-ok (not_staff_for u.email_verified (just email_not_verified)) _ h1 in
        let (t3, domain, h3) = >>=-eq-ok (in_domain p (strict_email_domain parse u.email)) _ h2 in
        (
          valid,
          not_staff_for-ok _ (just email_not_verified) verified,
          in_domain-ok p _ domain,
          shared_role u p.roles (not_staff_for-ok _ (just staff_role_missing) h3),
        )

    passed_all : IsStaff parse p u → check parse p (some u) ≡ ok tt
    passed_all (valid, verified, domain, (role, named, full, held)) =
        rw
          (
            valid,
            role_shared u named full held,
            domain,
            str_eq_self (normalized_domain p),
            verified,
          )
          refl

no_user : (parse : Mail) (p : StaffPolicy) {t : Unit {0}} → check parse p none ≡ ok t → ⊥
unfolding check
no_user parse p h = let (t, valid, h') = >>=-eq-ok (validate p) _ h in err-ne-ok h'

passed-injective :
    {cs ds : List SetCookie} {c d : Context} → passed cs c ≡ passed ds d → (cs ≡ ds) × (c ≡ d)
passed-injective h = (cc, cc)

refused-ne-passed : {r : Response} {cs : List SetCookie} {c : Context} → refused r ≡ passed cs c → ⊥
refused-ne-passed h = cc

checked_user :
    (parse : Mail) (p : StaffPolicy) (user : Option User)
    → check parse p user ≡ ok tt
    → (u : User) × (user ≡ some u) × IsStaff parse p u
checked_user parse p none h = absurd (no_user parse p h)
checked_user parse p (some u) h = (u, refl, (check_iff parse p u).0 h)

admitted_user :
    (parse : Mail) (p : StaffPolicy) (user : Option User) (ds : List SetCookie) (c : Context)
    {cs : List SetCookie} {ctx : Context} (m : Result Error (Unit {0}))
    → check parse p user ≡ m
    → admit_staff p ds c m ≡ passed cs ctx
    → (passed ds c ≡ passed cs ctx) × ((u : User) × (user ≡ some u) × IsStaff parse p u)
admitted_user parse p user ds c (ok t) e h = (h, checked_user parse p user e)
admitted_user parse p user ds c (err x) e h = absurd (refused-ne-passed h)

-- The middleware for staff passes a request on exactly when the session middleware does, with the
-- same cookies and context, and the user of that context passes the policy.
pub require_staff_iff :
    (a : Auth) (flights : Flights) (rand : Option Str) (now : ℤ) (parse : Mail) (p : StaffPolicy)
    (r : Request) (cs : List SetCookie) (ctx : Context)
    → (require_staff a flights rand now parse p r ≡ passed cs ctx) ↔ (
        (require_session a flights rand now r ≡ passed cs ctx)
        × ((u : User) × (ctx.user ≡ some u) × IsStaff parse p u))
unfolding require_staff
require_staff_iff a flights rand now parse p r cs ctx =
    of_gate (require_session a flights rand now r)
  where
    of_gate :
        (g : Gate)
        → (staff_gate parse p g ≡ passed cs ctx)
          ↔ ((g ≡ passed cs ctx) × ((u : User) × (ctx.user ≡ some u) × IsStaff parse p u))
    of_gate (refused response) =
        (λ h. absurd (refused-ne-passed h), λ h. absurd (refused-ne-passed h.0))
    of_gate (passed ds c) = (
      λ h.
          let (same, (u, is, staff)) =
            admitted_user parse p c.user ds c (check parse p c.user) refl h in
          (same, (u, ap (λ x. x.user) (sym ((passed-injective same).1)) ∙ is, staff)),
      λ h.
          let (same, (u, is, staff)) = h in
          let held : c.user ≡ some u = ap (λ x. x.user) (passed-injective same).1 ∙ is in
          let good : check parse p c.user ≡ ok tt = rw held ((check_iff parse p u).1 staff) in
          subst (λ m. admit_staff p ds c m ≡ passed cs ctx) (sym good) same,
    )
