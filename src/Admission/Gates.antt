-- ===== src/Admission/Gates.antt =====
-- admission.go: who is admitted, and how a refusal is classified.
use go_vai_oidc.Prelude.{
  ◌≡◌, refl, sym, ◌↔◌, ◌⊎◌, inl, inr, Bool, true, false, Option, none, some, ◌∷◌, arith, Result, ok,
  err, err-ne-ok, ok-injective, >>=-eq-ok,
}
use go_vai_oidc.Errors.{
  Error, sentinel, error_is, email_claim_missing, email_domain_mismatch, email_not_verified,
  resolver_failed, resolver_no_user,
}
use go_vai_oidc.User.{User}
use go_vai_oidc.Config.{Config, Admission, UserResolver}
use go_vai_oidc.Admission.{
  enforce_email_domain, require_verified, resolver_answer, ask_resolver, admit_identity,
  admission_reason, resolver_error,
}
use go_vai_oidc.Admission.Domains.{
  PassesDomain, IsInDomain, PassesDomain-IsInDomain, domain_gate_iff,
}
use go_vai_oidc.Prelude.Text.{IsAscii}

abbrev pub PassesVerified : Option User → Bool → Type 0
PassesVerified user required =
    (required ≡ false) ⊎ ((u : User) × (user ≡ some u) × (u.email_verified ≡ true))

-- With no resolver the identity itself; else the user that the resolver answered.
abbrev pub IsAnswer : Option UserResolver → Admission → Option User → Option User → Type 0
IsAnswer none kind user answer = answer ≡ user
IsAnswer (some resolver) kind user answer =
    (u : User) × (resolver kind user ≡ ok (some u)) × (answer ≡ some u)

pub verified_gate_iff :
    (required : Bool) (user : Option User)
    → (require_verified required user ≡ ok tt) ↔ PassesVerified user required
unfolding require_verified
verified_gate_iff false user = (λ h. inl refl, λ p. refl)
verified_gate_iff true none = (λ h. cc, λ p. ground arith)
verified_gate_iff true (some u) = (λ h. inr (u, refl, ground arith), λ p. ground arith)

resolver_iff :
    (resolver : Option UserResolver) (kind : Admission) (user answer : Option User)
    → (ask_resolver resolver kind user ≡ ok answer) ↔ IsAnswer resolver kind user answer
resolver_iff none kind user answer = (λ h. sym (ok-injective h), λ p. rw p)
resolver_iff (some r) kind user answer = (answered (r kind user), given (r kind user))
  where
    answered :
        (res : Result Error (Option User))
        → resolver_answer res ≡ ok answer
        → (u : User) × (res ≡ ok (some u)) × (answer ≡ some u)
    answered (err e) h = absurd (err-ne-ok h)
    answered (ok none) h = absurd (err-ne-ok h)
    answered (ok (some u)) h = (u, refl, sym (ok-injective h))

    given :
        (res : Result Error (Option User))
        → (u : User) × (res ≡ ok (some u)) × (answer ≡ some u)
        → resolver_answer res ≡ ok answer
    given res (u, e, same) = rw (e, same)

-- An identity is admitted exactly when it passes both gates and the resolver answers.
pub gates_iff :
    (cfg : Config) (kind : Admission) (user answer : Option User)
    → (admit_identity cfg kind user ≡ ok answer) ↔ (
        PassesVerified user cfg.require_email_verified
        × PassesDomain user cfg.require_email_domain
        × IsAnswer cfg.user_resolver kind user answer)
unfolding admit_identity
gates_iff cfg kind user answer = (opened, passed)
  where
    opened :
        admit_identity cfg kind user ≡ ok answer
        → PassesVerified user cfg.require_email_verified
          × PassesDomain user cfg.require_email_domain
          × IsAnswer cfg.user_resolver kind user answer
    opened h =
        let (t, verified, h') = >>=-eq-ok (require_verified cfg.require_email_verified user) _ h in
        let (s, domain, h'') =
          >>=-eq-ok (enforce_email_domain user cfg.require_email_domain) _ h' in
        (
          (verified_gate_iff _ user).0 verified,
          (domain_gate_iff user _).0 domain,
          (resolver_iff cfg.user_resolver kind user answer).0 h'',
        )

    passed :
        PassesVerified user cfg.require_email_verified
          × PassesDomain user cfg.require_email_domain
          × IsAnswer cfg.user_resolver kind user answer
        → admit_identity cfg kind user ≡ ok answer
    passed (v, d, a) =
        rw ((verified_gate_iff _ user).1 v, (domain_gate_iff user _).1 d)
          ((resolver_iff cfg.user_resolver kind user answer).1 a)

-- An identity is admitted, with a given answer, exactly when it is verified if verification is
-- required, its address is in the required domain if one is required, and the answer is the
-- identity itself without a resolver, else the user that the resolver answered with. The required
-- domain is in ASCII. An address is in it when the text behind its last "@", in lower case, folds to
-- the lower case of that domain: the long s and the Kelvin sign, and a dotted capital I, count as
-- the letters s, k and i.
pub admit_identity_iff :
    (cfg : Config) (kind : Admission) (user answer : Option User)
    → IsAscii cfg.require_email_domain
    → (admit_identity cfg kind user ≡ ok answer) ↔ (
        PassesVerified user cfg.require_email_verified
        × IsInDomain user cfg.require_email_domain
        × IsAnswer cfg.user_resolver kind user answer)
admit_identity_iff cfg kind user answer ascii =
    let (to, from) = gates_iff cfg kind user answer in
    let (inside, passes) = PassesDomain-IsInDomain user cfg.require_email_domain ascii in
    (λ h. let (v, d, a) = to h in (v, inside d, a), λ (v, d, a). from (v, passes d, a))

-- A resolver's own error is classified as the backend failing to answer exactly when it wraps none
-- of the four refusals of the gates: an error that wraps one of them is read as that refusal.
pub admission_reason-resolver_error_iff :
    (e : Error)
    → (admission_reason (sentinel resolver_failed ∷ e) ≡ resolver_error) ↔ (
        (error_is e email_not_verified ≡ false)
        × (error_is e email_domain_mismatch ≡ false)
        × (error_is e email_claim_missing ≡ false)
        × (error_is e resolver_no_user ≡ false))
unfolding admission_reason
admission_reason-resolver_error_iff e = ground arith
