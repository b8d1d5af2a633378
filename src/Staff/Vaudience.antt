-- ===== src/Staff/Vaudience.antt =====
-- staff.go: the policy of vAudience, and who is staff under it.
use mathlib.Core.List.{Memᴰ}
use go_vai_oidc.Prelude.{
  Bool, true, false, Option, none, some, List, [], ◌∷◌, ◌≡◌, refl, sym, ap, subst, ◌↔◌, ◌⊎◌, inl,
  inr, Result, ok, err, err-ne-ok, ok-injective, arith,
}
use go_vai_oidc.Prelude.Text.{Str, codes, is_empty}
use go_vai_oidc.Errors.{Error}
use go_vai_oidc.User.{User}
use go_vai_oidc.Staff.{StaffPolicy, normalized_domain, validate, Mail, strict_email_domain, check}
use go_vai_oidc.Staff.Policy.{SharesRole, check_iff}

-- `VAIStaffPolicy`
unfoldable pub vai_staff_policy : StaffPolicy
vai_staff_policy = record {
  domain = codes "vaudience.ai";
  roles = codes "obol-system-admin" ∷ codes "vai-business-manager" ∷ [];
  forbidden = none;
}

abbrev pub succeeded : Result Error (Unit {0}) → Bool
succeeded (ok t) = true
succeeded (err e) = false

-- `User.IsStaff`
unfoldable pub is_staff : Mail → StaffPolicy → User → Bool
is_staff parse p u = succeeded (check parse p (some u))

succeeded_iff : (m : Result Error (Unit {0})) → (succeeded m ≡ true) ↔ (m ≡ ok tt)
succeeded_iff (ok t) = (λ h. refl, λ h. refl)
succeeded_iff (err e) = (λ h. cc, λ h. absurd (err-ne-ok h))

vai_valid : validate vai_staff_policy ≡ ok tt
unfolding validate vai_staff_policy normalized_domain go_vai_oidc.Prelude.Text.to_lower
    go_vai_oidc.Prelude.Text.cut_prefix codes go_vai_oidc.Prelude.Text.trim_right
    go_vai_oidc.Prelude.Text.trim_left go_vai_oidc.Prelude.Text.contains_any
    go_vai_oidc.Prelude.Text.contains
vai_valid = refl

vai_domain : normalized_domain vai_staff_policy ≡ codes "vaudience.ai"
unfolding normalized_domain vai_staff_policy codes go_vai_oidc.Prelude.Text.to_lower
    go_vai_oidc.Prelude.Text.cut_prefix go_vai_oidc.Prelude.Text.trim_right
    go_vai_oidc.Prelude.Text.trim_left
vai_domain = refl

abbrev HoldsOne : User → Type 0
HoldsOne u =
    Memᴰ (codes "obol-system-admin") u.realm_roles
    ⊎ Memᴰ (codes "vai-business-manager") u.realm_roles

shares_iff : (u : User) → SharesRole vai_staff_policy u ↔ HoldsOne u
unfolding vai_staff_policy
shares_iff u = (
  λ (role, named, full, held). one role named held,
  λ h. elim h [
    | inl held ↦ (_, Memᴰ.head refl, unfold codes in refl, held)
    | inr held ↦ (_, Memᴰ.tail (Memᴰ.head refl), unfold codes in refl, held)
  ],
)
  where
    one :
        (role : Str)
        → Memᴰ role (codes "obol-system-admin" ∷ codes "vai-business-manager" ∷ [])
        → Memᴰ role u.realm_roles
        → HoldsOne u
    one role (Memᴰ.head e) held = inl (subst (λ r. Memᴰ r u.realm_roles) e held)
    one role (Memᴰ.tail (Memᴰ.head e)) held = inr (subst (λ r. Memᴰ r u.realm_roles) e held)
    one role (Memᴰ.tail (Memᴰ.tail m)) held = elim m [ ]

-- A user is vAudience staff exactly with a verified bare address at vaudience.ai and one of the two
-- roles of the policy.
pub is_staff-vai_iff :
    (parse : Mail) (u : User)
    → (is_staff parse vai_staff_policy u ≡ true) ↔ (
        (u.email_verified ≡ true)
        × (strict_email_domain parse u.email ≡ some (codes "vaudience.ai"))
        × (Memᴰ (codes "obol-system-admin") u.realm_roles
            ⊎ Memᴰ (codes "vai-business-manager") u.realm_roles))
unfolding is_staff
is_staff-vai_iff parse u = (
  λ h.
      let (valid, verified, domain, shares) =
        (check_iff parse vai_staff_policy u).0 ((succeeded_iff _).0 h) in
      (verified, rw (← vai_domain) domain, (shares_iff u).0 shares),
  λ (verified, domain, holds). (succeeded_iff _).1 (
      (check_iff parse vai_staff_policy u).1
        (vai_valid, verified, rw vai_domain domain, (shares_iff u).1 holds)),
)
