-- ===== src/Reresolve.antt =====
-- reresolve.go: re-asking the resolver for a live session. Values are copied by construction, so
-- the clones of the source are the values themselves.
pub mod Rights
pub mod Soft
use go_vai_oidc.Prelude.{
  Bool, true, false, ◌&&◌, ◌||◌, not, Option, none, some, List, [], ◌∷◌, if◌then◌else◌, Result, ok,
  err, any,
}
use go_vai_oidc.Prelude.Text.{Str, str_eq, is_empty}
use go_vai_oidc.Errors.{Error}
use go_vai_oidc.User.{User, Membership, redirect_target}
use go_vai_oidc.Config.{Config, Admission, revalidation}
use go_vai_oidc.Admission.{AdmissionReason, resolver_error, admit_identity, admission_reason}
use go_vai_oidc.Idp.{Idp, Token, IdToken, verify_id_token}
use go_vai_oidc.Auth.{Auth}
use go_vai_oidc.Session.Payload.{SessionPayload, from_user}

-- `reresolveOutcome`, with the answer of an applied one.
pub data ReresolveOutcome : Type 0 where
  applied : User → ReresolveOutcome
  soft : ReresolveOutcome
  ended : ReresolveOutcome

-- `storedIdentity`
unfoldable pub stored_identity : SessionPayload → User
stored_identity p = record {
  sub = p.sub;
  email = p.email;
  email_verified = p.ev;
  name = p.name;
  org_id = [];
  memberships = [];
  claims = p.claims;
  session_id = p.sid;
  realm_roles = p.rls;
  auth_time = none;
  landing = none;
}

abbrev pub same_subject : SessionPayload → Result Error User → User
same_subject p (err e) = stored_identity p
same_subject p (ok u) = if str_eq u.sub p.sub then u else stored_identity p

abbrev pub fresh_identity :
    Auth → SessionPayload → Option (Str → Result Error IdToken) → Option Str → User
fresh_identity a p none raw = stored_identity p
fresh_identity a p (some verify) none = stored_identity p
fresh_identity a p (some verify) (some raw) =
    if is_empty raw
    then stored_identity p
    else same_subject p (verify_id_token a.idp a.cfg.extra_claims verify raw)

-- `revalidationIdentity`
unfoldable pub revalidation_identity : Auth → SessionPayload → Option Token → User
unfolding stored_identity
revalidation_identity a p none = stored_identity p
revalidation_identity a p (some fresh) = fresh_identity a p a.idp.verifier fresh.id_token

abbrev pub no_memberships : List Membership → Bool
no_memberships [] = true
no_memberships (m ∷ ms) = false

-- `hasNoOrg`
unfoldable pub has_no_org : User → Bool
has_no_org u = is_empty u.org_id && no_memberships u.memberships

-- `isMemberOf`
unfoldable pub is_member_of : List Membership → Str → Bool
is_member_of ms org_id = any (λ m. str_eq m.org_id org_id) ms

abbrev pub is_resolver_error : AdmissionReason → Bool
is_resolver_error resolver_error = true
is_resolver_error _ = false

abbrev pub would_redirect : Option Str → Bool
would_redirect none = false
would_redirect (some url) = true

-- The end of `reresolve`. An identity that is not nil is never admitted as nil.
abbrev pub outcome_of : Result Error (Option User) → ReresolveOutcome
outcome_of (err e) = if is_resolver_error (admission_reason e) then soft else ended
outcome_of (ok none) = ended
outcome_of (ok (some resolved)) =
    if has_no_org resolved && would_redirect (redirect_target resolved.landing)
    then ended
    else applied resolved

-- `reresolve`
unfoldable pub reresolve : Auth → SessionPayload → Option Token → ReresolveOutcome
unfolding revalidation_identity
reresolve a p fresh =
    outcome_of (admit_identity a.cfg revalidation (some (revalidation_identity a p fresh)))

abbrev pub keeps_org : Str → Str → List Membership → Bool
keeps_org previous new ms =
    not (is_empty previous) && not (str_eq previous new) && is_member_of ms previous

-- `applyResolution`
unfoldable pub apply_resolution : SessionPayload → User → SessionPayload
unfolding from_user
apply_resolution p resolved =
    let q = from_user p resolved in
    if keeps_org p.org_id q.org_id resolved.memberships then record q { org_id = p.org_id } else q
