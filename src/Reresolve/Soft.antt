-- ===== src/Reresolve/Soft.antt =====
-- reresolve.go: when a re-resolution leaves the session as it is.
use go_vai_oidc.Prelude.{
  ◌≡◌, refl, ◌↔◌, Bool, false, Option, none, some, ◌∷◌, arith, Result, ok, err, some-eq, ◌>>=◌,
  err-injective,
}
use go_vai_oidc.Prelude.Text.{Str}
use go_vai_oidc.Errors.{
  Error, just, sentinel, error_is, email_claim_missing, email_domain_mismatch, email_not_verified,
  resolver_failed, resolver_no_user,
}
use go_vai_oidc.User.{User}
use go_vai_oidc.Config.{Config, UserResolver, Admission, revalidation}
use go_vai_oidc.Idp.{Token}
use go_vai_oidc.Auth.{Auth}
use go_vai_oidc.Admission.{
  resolver_error, enforce_email_domain, require_verified, resolver_answer, ask_resolver,
  admit_identity, admission_reason,
}
use go_vai_oidc.Admission.Domains.{
  PassesDomain, IsInDomain, PassesDomain-IsInDomain, domain_gate_iff,
}
use go_vai_oidc.Prelude.Text.{IsAscii}
use go_vai_oidc.Admission.Gates.{
  PassesVerified, verified_gate_iff, admission_reason-resolver_error_iff,
}
use go_vai_oidc.Session.Payload.{SessionPayload}
use go_vai_oidc.Reresolve.{soft, revalidation_identity, outcome_of, reresolve}

-- An error that wraps none of the refusals of the gates.
abbrev pub IsOutage : Error → Type 0
IsOutage e =
    (error_is e email_not_verified ≡ false)
    × (error_is e email_domain_mismatch ≡ false)
    × (error_is e email_claim_missing ≡ false)
    × (error_is e resolver_no_user ≡ false)

-- The refusal that is read as an outage.
abbrev FailsOpen : Result Error (Option User) → Type 0
FailsOpen m = (e : Error) × (m ≡ err e) × (admission_reason e ≡ resolver_error)

outcome_of-soft_iff : (m : Result Error (Option User)) → (outcome_of m ≡ soft) ↔ FailsOpen m
outcome_of-soft_iff (err e) = (λ h. (e, refl, ground arith), λ p. ground arith)
outcome_of-soft_iff (ok none) = (λ h. cc, λ p. cc)
outcome_of-soft_iff (ok (some v)) = (λ h. ground arith, λ p. cc)

abbrev WithResolver : Option UserResolver → Admission → Option User → Type 0
WithResolver resolver kind user =
    (ask : UserResolver) × (resolver ≡ some ask)
    × ((e : Error) × (ask kind user ≡ err e) × IsOutage e)

answered_iff :
    (m : Result Error (Option User))
    → FailsOpen (resolver_answer m) ↔ ((e : Error) × (m ≡ err e) × IsOutage e)
answered_iff (err e) = (
  λ (f, same, out).
      (e, refl, (admission_reason-resolver_error_iff e).0 (rw (err-injective same) out)),
  λ (f, same, out). (
    sentinel resolver_failed ∷ e,
    refl,
    (admission_reason-resolver_error_iff e).1 (rw (err-injective same) out),
  ),
)
answered_iff (ok none) = (λ p. absurd (no_user p), λ p. cc)
  where
    no_user : FailsOpen (err (just resolver_no_user)) → ⊥
    no_user (e, same, out) = unfold admission_reason in cc
answered_iff (ok (some v)) = (λ p. cc, λ p. cc)

asked_iff :
    (resolver : Option UserResolver) (kind : Admission) (user : Option User)
    → FailsOpen (ask_resolver resolver kind user) ↔ WithResolver resolver kind user
asked_iff none kind user = (λ p. cc, λ p. cc)
asked_iff (some ask) kind user = (
  λ p. (ask, refl, (answered_iff (ask kind user)).0 p),
  λ (f, same, p). (answered_iff (ask kind user)).1 (rw (some-eq same) p),
)

-- A refusal of a gate is no outage.
verified_refusal :
    (required : Bool) (user : Option User) (e : Error)
    → require_verified required user ≡ err e
    → admission_reason e ≡ resolver_error
    → ⊥
unfolding require_verified admission_reason
verified_refusal required user e h out = ground arith

domain_refusal :
    (user : Option User) (required : Str) (e : Error)
    → enforce_email_domain user required ≡ err e
    → admission_reason e ≡ resolver_error
    → ⊥
unfolding enforce_email_domain admission_reason
domain_refusal none required e h out = ground arith
domain_refusal (some u) required e h out = ground arith

admitted_iff :
    (cfg : Config) (kind : Admission) (user : Option User)
    → FailsOpen (admit_identity cfg kind user) ↔ (
        PassesVerified user cfg.require_email_verified
        × PassesDomain user cfg.require_email_domain
        × WithResolver cfg.user_resolver kind user)
unfolding admit_identity
admitted_iff cfg kind user = (opened, passed)
  where
    behind_domain :
        (m : Result Error (Unit {0}))
        → enforce_email_domain user cfg.require_email_domain ≡ m
        → FailsOpen (m >>= λ domain. ask_resolver cfg.user_resolver kind user)
        → PassesDomain user cfg.require_email_domain × WithResolver cfg.user_resolver kind user
    behind_domain (err e) gate (f, same, out) =
        absurd (domain_refusal user _ e gate (rw (err-injective same) out))
    behind_domain (ok done) gate p =
        ((domain_gate_iff user _).0 gate, (asked_iff cfg.user_resolver kind user).0 p)

    behind_verified :
        (m : Result Error (Unit {0}))
        → require_verified cfg.require_email_verified user ≡ m
        → FailsOpen (
            m >>= λ verified. do
              domain ← enforce_email_domain user cfg.require_email_domain
              ask_resolver cfg.user_resolver kind user)
        → PassesVerified user cfg.require_email_verified
          × PassesDomain user cfg.require_email_domain
          × WithResolver cfg.user_resolver kind user
    behind_verified (err e) gate (f, same, out) =
        absurd (verified_refusal _ user e gate (rw (err-injective same) out))
    behind_verified (ok done) gate p =
        let (domain, asked) = behind_domain _ refl p in
        ((verified_gate_iff _ user).0 gate, domain, asked)

    opened :
        FailsOpen (admit_identity cfg kind user)
        → PassesVerified user cfg.require_email_verified
          × PassesDomain user cfg.require_email_domain
          × WithResolver cfg.user_resolver kind user
    opened p = behind_verified _ refl p

    passed :
        PassesVerified user cfg.require_email_verified
          × PassesDomain user cfg.require_email_domain
          × WithResolver cfg.user_resolver kind user
        → FailsOpen (admit_identity cfg kind user)
    passed (v, d, p) =
        rw ((verified_gate_iff _ user).1 v, (domain_gate_iff user _).1 d)
          ((asked_iff cfg.user_resolver kind user).1 p)

-- A re-resolution leaves the session as it is exactly when both gates pass and the resolver fails.
pub soft_iff :
    (a : Auth) (p : SessionPayload) (fresh : Option Token)
    → let user = some (revalidation_identity a p fresh) in
      (reresolve a p fresh ≡ soft) ↔ (
        PassesVerified user a.cfg.require_email_verified
        × PassesDomain user a.cfg.require_email_domain
        × ((ask : UserResolver) × (a.cfg.user_resolver ≡ some ask)
            × ((e : Error) × (ask revalidation user ≡ err e) × IsOutage e)))
unfolding reresolve
soft_iff a p fresh =
    let user = some (revalidation_identity a p fresh) in
    let (open_to, open_from) = outcome_of-soft_iff (admit_identity a.cfg revalidation user) in
    let (to, from) = admitted_iff a.cfg revalidation user in
    (λ h. to (open_to h), λ q. open_from (from q))

-- A re-resolution leaves the session as it is exactly when the identity of the revalidation passes
-- the gates and the resolver answers an error that wraps none of the refusals of the gates. The
-- required domain is in ASCII.
pub reresolve_soft_iff :
    (a : Auth) (p : SessionPayload) (fresh : Option Token)
    → IsAscii a.cfg.require_email_domain
    → let user = some (revalidation_identity a p fresh) in
      (reresolve a p fresh ≡ soft) ↔ (
        PassesVerified user a.cfg.require_email_verified
        × IsInDomain user a.cfg.require_email_domain
        × ((ask : UserResolver) × (a.cfg.user_resolver ≡ some ask)
            × ((e : Error) × (ask revalidation user ≡ err e) × IsOutage e)))
reresolve_soft_iff a p fresh ascii =
    let (to, from) = soft_iff a p fresh in
    let (inside, passes) =
      PassesDomain-IsInDomain (some (revalidation_identity a p fresh)) a.cfg.require_email_domain
        ascii in
    (
      λ h. let (v, d, broken) = to h in (v, inside d, broken),
      λ (v, d, broken). from (v, passes d, broken),
    )
