-- ===== src/Admission.antt =====
-- admission.go and email_domain.go: the login gates, in the callback's order, and the UserResolver.
pub mod Domains
pub mod Gates
use go_vai_oidc.Prelude.{
  ℕ, Bool, true, false, ◌||◌, ◌&&◌, not, Option, none, some, List, [], ◌∷◌, ◌++◌, ◌==◌,
  if◌then◌else◌, Result, ok, err, ◌>>=◌,
}
use go_vai_oidc.Prelude.Text.{Str, is_empty, to_lower, equal_fold}
use go_vai_oidc.Errors.{
  Error, sentinel, just, error_is, email_claim_missing, email_domain_mismatch, email_not_verified,
  resolver_failed, resolver_no_user,
}
use go_vai_oidc.User.{User}
use go_vai_oidc.Config.{Config, Admission, UserResolver}

-- What stands behind the last occurrence of a byte: email[strings.LastIndex(email, "@")+1:].
unfoldable pub after_last : ℕ → Str → Option Str
after_last sep [] = none
after_last sep (c ∷ s) = elim (after_last sep s) [
  | some rest ↦ some rest
  | none ↦ if c == sep then some s else none
]

-- `emailDomainOf`: empty without an "@" and when the "@" is the last byte.
unfoldable pub email_domain_of : Str → Str
unfolding after_last to_lower
email_domain_of email = elim (after_last b'@' email) [ none ↦ [] | some domain ↦ to_lower domain ]

-- `enforceEmailDomain`
unfoldable pub enforce_email_domain : Option User → Str → Result Error (Unit {0})
enforce_email_domain none required =
    if is_empty required then ok tt else err (just email_claim_missing)
enforce_email_domain (some u) required =
    if is_empty required
    then ok tt
    else if is_empty (email_domain_of u.email)
    then err (just email_claim_missing)
    else if equal_fold (email_domain_of u.email) required
    then ok tt
    else err (just email_domain_mismatch)

abbrev pub is_verified : Option User → Bool
is_verified none = false
is_verified (some u) = u.email_verified

unfoldable pub require_verified : Bool → Option User → Result Error (Unit {0})
require_verified required user =
    if required && not (is_verified user) then err (just email_not_verified) else ok tt

abbrev pub resolver_answer : Result Error (Option User) → Result Error (Option User)
resolver_answer (err e) = err (sentinel resolver_failed ∷ e)
resolver_answer (ok none) = err (just resolver_no_user)
resolver_answer (ok (some u)) = ok (some u)

abbrev pub ask_resolver : Option UserResolver → Admission → Option User → Result Error (Option User)
ask_resolver none kind user = ok user
ask_resolver (some resolver) kind user = resolver_answer (resolver kind user)

-- `admitIdentity`. Without a resolver it hands back the identity that it was given, nil or not.
unfoldable pub admit_identity : Config → Admission → Option User → Result Error (Option User)
admit_identity cfg kind user = do
  verified ← require_verified cfg.require_email_verified user
  domain ← enforce_email_domain user cfg.require_email_domain
  ask_resolver cfg.user_resolver kind user

pub data AdmissionReason : Type 0 where
  email_unverified domain_mismatch claim_missing no_user resolver_error : AdmissionReason
  other_error : Error → AdmissionReason

-- `domainReason`
unfoldable pub domain_reason : Error → AdmissionReason
domain_reason e =
    if error_is e email_domain_mismatch
    then domain_mismatch
    else if error_is e email_claim_missing
    then claim_missing
    else other_error e

-- `admissionReason`
unfoldable pub admission_reason : Error → AdmissionReason
unfolding domain_reason
admission_reason e =
    if error_is e email_not_verified
    then email_unverified
    else if error_is e email_domain_mismatch || error_is e email_claim_missing
    then domain_reason e
    else if error_is e resolver_no_user
    then no_user
    else if error_is e resolver_failed
    then resolver_error
    else other_error e
