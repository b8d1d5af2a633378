-- ===== src/Staff/Reasons.antt =====
-- staff.go: the reason that the log gives for a refusal of the staff policy.
use go_vai_oidc.Prelude.{
  Bool, true, false, Option, none, some, ◌∷◌, ◌≡◌, refl, ◌≢◌, inl, inr, ok, err, ok-ne-err,
  err-injective, Bool-cases, Result-cases, if◌then◌else◌, arith, subst, sym, ◌∙◌, ◌>>=◌, err-ne-ok,
}
use go_vai_oidc.Errors.{
  Error, just, sentinel, error_is, no_session, not_staff, staff_role_missing, staff_policy_invalid,
  email_claim_missing, email_domain_mismatch, email_not_verified,
}
use go_vai_oidc.Prelude.Text.{Str, str_eq}
use go_vai_oidc.User.{User}
use go_vai_oidc.Staff.{
  StaffPolicy, validate, Mail, strict_email_domain, not_staff_for, in_domain, holds_role,
  check_user, check, normalized_domain,
}

pub data StaffReason : Type 0 where
  policy_invalid no_session_held unverified email_malformed domain_mismatch role_missing :
      StaffReason
  unnamed : Error → StaffReason

-- `staffReason`
unfoldable pub staff_reason : Error → StaffReason
staff_reason e =
    if error_is e staff_policy_invalid
    then policy_invalid
    else if error_is e no_session
    then no_session_held
    else if error_is e email_not_verified
    then unverified
    else if error_is e email_claim_missing
    then email_malformed
    else if error_is e email_domain_mismatch
    then domain_mismatch
    else if error_is e staff_role_missing
    then role_missing
    else unnamed e

-- The reasons that a refusal of a user may have, in the order in which they are looked for.
abbrev pub Explains : Mail → StaffPolicy → Option User → StaffReason → Type 0
Explains parse p user policy_invalid = validate p ≢ ok tt
Explains parse p user no_session_held = user ≡ none
Explains parse p user unverified = (u : User) × (user ≡ some u) × (u.email_verified ≡ false)
Explains parse p user email_malformed =
    (u : User) × (user ≡ some u) × (strict_email_domain parse u.email ≡ none)
Explains parse p user domain_mismatch =
    (u : User) × (user ≡ some u) × (in_domain p (strict_email_domain parse u.email) ≢ ok tt)
Explains parse p user role_missing = (u : User) × (user ≡ some u) × (holds_role p u ≡ false)
Explains parse p user (unnamed e) = ⊥

invalid_only : (p : StaffPolicy) (e : Error) → validate p ≡ err e → e ≡ just staff_policy_invalid
unfolding validate
invalid_only p e h = ground arith

module _ (parse : Mail) (p : StaffPolicy) (user : Option User) where
  -- The reason for an error that is known.
  abbrev Reasoned : Error → Type 0
  Reasoned e = Explains parse p user (staff_reason e)

  refused_with : (known : Error) {e : Error} → known ≡ e → Reasoned known → Reasoned e
  refused_with known same why = subst Reasoned same why

  role_refused :
      (u : User) (holds : Bool) {e : Error}
      → user ≡ some u
      → holds_role p u ≡ holds
      → not_staff_for holds (just staff_role_missing) ≡ err e
      → Reasoned e
  unfolding staff_reason
  role_refused u true who found h = absurd (ok-ne-err h)
  role_refused u false who found h =
      refused_with (sentinel not_staff ∷ just staff_role_missing) (err-injective h) (u, who, found)

  domain_refused :
      (u : User) (domain : Option Str) {e : Error}
      → user ≡ some u
      → strict_email_domain parse u.email ≡ domain
      → (in_domain p domain >>= λ passed. not_staff_for (holds_role p u) (just staff_role_missing))
        ≡ err e
      → Reasoned e
  unfolding staff_reason
  domain_refused u none who found h =
      refused_with (sentinel not_staff ∷ just email_claim_missing) (err-injective h) (u, who, found)
  domain_refused u (some domain) who found h =
      elim (Bool-cases (str_eq domain (normalized_domain p))) [
        | inl same ↦ role_refused u (holds_role p u) who refl (rw same at h)
        | inr other ↦
            refused_with (sentinel not_staff ∷ just email_domain_mismatch)
              (err-injective (rw other at h)) (u, who, rw (found, other) (λ e. err-ne-ok e))
      ]

  verified_refused :
      (u : User) (verified : Bool) {e : Error}
      → user ≡ some u
      → u.email_verified ≡ verified
      → (not_staff_for verified (just email_not_verified) >>= λ passed.
          (in_domain p (strict_email_domain parse u.email) >>= λ domain.
          not_staff_for (holds_role p u) (just staff_role_missing)))
        ≡ err e
      → Reasoned e
  unfolding staff_reason
  verified_refused u true who found h =
      domain_refused u (strict_email_domain parse u.email) who refl h
  verified_refused u false who found h =
      refused_with (sentinel not_staff ∷ just email_not_verified) (err-injective h) (u, who, found)

  user_refused :
      (who : Option User) {e : Error} → user ≡ who → check_user parse p who ≡ err e → Reasoned e
  unfolding staff_reason
  user_refused none same h = refused_with (just no_session) (err-injective h) same
  user_refused (some u) same h = verified_refused u u.email_verified same refl h

-- Every refusal of the policy is logged under a reason of its own, and that reason holds.
pub staff_reason-check :
    (parse : Mail) (p : StaffPolicy) (user : Option User) (e : Error)
    → check parse p user ≡ err e
    → Explains parse p user (staff_reason e)
unfolding check staff_reason
staff_reason-check parse p user e h = elim (Result-cases (validate p)) [
  | inl (t, valid) ↦ user_refused parse p user user refl (rw valid at h)
  | inr (why, bad) ↦
      let known : why ≡ just staff_policy_invalid = invalid_only p why bad in
      let same : why ≡ e = err-injective (rw bad at h) in
      refused_with parse p user (just staff_policy_invalid) (sym known ∙ same)
        (rw bad (λ valid. err-ne-ok valid))
]
