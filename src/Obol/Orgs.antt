-- ===== src/Obol/Orgs.antt =====
-- obolresolver/obolresolver.go behind auth.go and reresolve.go: a deployment whose resolver is this
-- one, and which session it gives somebody without an org.
use go_vai_oidc.Prelude.{
  ◌≡◌, refl, ◌≢◌, sym, subst, ◌∙◌, ◌⊎◌, inl, inr, Bool, true, false, Option, none, some, List, [],
  Result, ok, err, >>=-eq-ok, ok-injective, err-ne-ok, some-eq, Bool-cases,
}
use go_vai_oidc.Prelude.Int.{ℤ}
use go_vai_oidc.Prelude.Text.{Str, is_empty, str_eq}
use go_vai_oidc.Errors.{Error}
use go_vai_oidc.User.{User, redirect_target}
use go_vai_oidc.Config.{Admission, login, revalidation}
use go_vai_oidc.Cookie.{Request}
use go_vai_oidc.Auth.{Auth}
use go_vai_oidc.Idp.{Token, IdToken, Idp, extract_user, verify_id_token}
use go_vai_oidc.Admission.{admit_identity}
use go_vai_oidc.Admission.Gates.{IsAnswer, gates_iff}
use go_vai_oidc.Session.Payload.{SessionPayload}
use go_vai_oidc.Login.{SignedIn, login_outcome}
use go_vai_oidc.Login.Sound.{login_outcome-Checked}
use go_vai_oidc.Reresolve.{
  reresolve, applied, has_no_org, revalidation_identity, stored_identity, fresh_identity,
  same_subject,
}
use go_vai_oidc.Reresolve.Rights.{reresolve_applied_iff}
use go_vai_oidc.Obol.{
  IdentityEnsureLanding, IdentityEnsureResponse, ObolConfig, HttpClient, Wire, to_vai_memberships,
}
use go_vai_oidc.Obol.Resolver.{resolver_of, new_resolver}
use go_vai_oidc.Obol.Landings.{IsFollowable, admit_landing_iff}
use go_vai_oidc.Obol.Answers.{Placement, member, funnelled, allowed_empty, resolve_iff}

abbrev pub IsOrgless : User → Type 0
IsOrgless u = (u.org_id ≡ []) × (u.memberships ≡ [])

IsOrgless-has_no_org : (v : User) → IsOrgless v → has_no_org v ≡ true
unfolding has_no_org
IsOrgless-has_no_org v (org, nobody) = rw (org, nobody) refl

apart : {b : Bool} → b ≡ true → b ≡ false → ⊥
apart p q = cc

unmoved : {o : Option Str} {url : Str} → o ≡ some url → o ≡ none → ⊥
unmoved p q = cc

extract_user-IsOrgless :
    (idp : Idp) (t : IdToken) (extra : List Str) → IsOrgless (extract_user idp t extra)
unfolding extract_user
extract_user-IsOrgless idp t extra = (refl, refl)

stored_identity-IsOrgless : (p : SessionPayload) → IsOrgless (stored_identity p)
unfolding stored_identity
stored_identity-IsOrgless p = (refl, refl)

verify_id_token-IsOrgless :
    (idp : Idp) (extra : List Str) (verify : Str → Result Error IdToken) (raw : Str) (u : User)
    → verify_id_token idp extra verify raw ≡ ok u
    → IsOrgless u
unfolding verify_id_token
verify_id_token-IsOrgless idp extra verify raw u h =
    let (t, e, made) = >>=-eq-ok _ (λ t. ok (extract_user idp t extra)) h in
    subst IsOrgless (ok-injective made) (extract_user-IsOrgless idp t extra)

module _ (a : Auth) (p : SessionPayload) where
  same_subject-IsOrgless :
      (m : Result Error User) → ((u : User) → m ≡ ok u → IsOrgless u) → IsOrgless (same_subject p m)
  same_subject-IsOrgless (err e) h = stored_identity-IsOrgless p
  same_subject-IsOrgless (ok u) h = elim (Bool-cases (str_eq u.sub p.sub)) [
    | inl same ↦ rw same (h u refl)
    | inr other ↦ rw other (stored_identity-IsOrgless p)
  ]

  fresh_identity-IsOrgless :
      (verifier : Option (Str → Result Error IdToken)) (raw : Option Str)
      → IsOrgless (fresh_identity a p verifier raw)
  fresh_identity-IsOrgless none raw = stored_identity-IsOrgless p
  fresh_identity-IsOrgless (some verify) none = stored_identity-IsOrgless p
  fresh_identity-IsOrgless (some verify) (some raw) = elim (Bool-cases (is_empty raw)) [
    | inl blank ↦ rw blank (stored_identity-IsOrgless p)
    | inr full ↦
        rw full
          (same_subject-IsOrgless _ (verify_id_token-IsOrgless a.idp a.cfg.extra_claims verify raw))
  ]

  -- Every revalidation asks about an identity without an org.
  revalidation_identity-IsOrgless :
      (fresh : Option Token) → IsOrgless (revalidation_identity a p fresh)
  unfolding revalidation_identity
  revalidation_identity-IsOrgless none = stored_identity-IsOrgless p
  revalidation_identity-IsOrgless (some t) = fresh_identity-IsOrgless a.idp.verifier t.id_token

-- Where somebody goes whom the resolver answered for: into an org, or on to a landing.
abbrev pub IsPlaced : Wire → ObolConfig → User → Type 0
IsPlaced wire cfg v =
    (v.memberships ≢ [])
    ⊎ (IsOrgless v
        × ((l : IdentityEnsureLanding) × IsFollowable wire.parse_url cfg.allowed_landing_hosts l
            × (redirect_target v.landing ≡ some l.landing_url)))

module _ (wire : Wire) (cfg : ObolConfig) (strict : cfg.allow_empty_membership ≡ false) where
  Placement-IsPlaced :
      (u : User) (inner : IdentityEnsureResponse) (v : User)
      → IsOrgless u
      → Placement wire cfg u inner v
      → IsPlaced wire cfg v
  unfolding to_vai_memberships
  Placement-IsPlaced u inner _ orgless (member m ms same) = inl (λ e. cc)
  Placement-IsPlaced u inner _ orgless (funnelled l nobody sent follow) =
      let moves = (admit_landing_iff _ _ l l.landing_url).1 (follow, refl) in
      inr (orgless, (l, follow, rw sent moves))
  Placement-IsPlaced u inner _ orgless (allowed_empty nobody stays flag) =
      absurd (apart flag strict)

  resolver_of-IsPlaced :
      (client : Option HttpClient) (kind : Admission) (u v : User)
      → IsOrgless u
      → resolver_of wire cfg client kind (some u) ≡ ok (some v)
      → IsPlaced wire cfg v
  resolver_of-IsPlaced none kind u v orgless h = absurd (err-ne-ok h)
  resolver_of-IsPlaced (some client) kind u v orgless h =
      let (inner, answered, p) = (resolve_iff wire cfg client kind u v).0 h in
      Placement-IsPlaced u inner v orgless p

  module _ (a : Auth) (installed : a.cfg.user_resolver ≡ new_resolver wire cfg)
      (based : is_empty cfg.base_url ≡ false) where
    resolver_is : a.cfg.user_resolver ≡ some (resolver_of wire cfg cfg.client)
    unfolding new_resolver
    resolver_is = installed ∙ rw based refl

    admit_identity-IsPlaced :
        (kind : Admission) (u v : User)
        → IsOrgless u
        → admit_identity a.cfg kind (some u) ≡ ok (some v)
        → IsPlaced wire cfg v
    admit_identity-IsPlaced kind u v orgless h =
        let (_, _, answer) = (gates_iff a.cfg kind (some u) (some v)).0 h in
        let (w, answered, same) =
          subst (λ r. IsAnswer r kind (some u) (some v)) resolver_is answer in
        subst (IsPlaced wire cfg) (sym (some-eq same))
          (resolver_of-IsPlaced cfg.client kind u w orgless answered)

-- With the Obol resolver installed, and sessions without an org not allowed, a login signs in only
-- somebody who has a membership or whom a landing that is to be followed moves on at once.
pub login_outcome-IsPlaced :
    (wire : Wire) (cfg : ObolConfig) (a : Auth) (now : ℤ) (rand : Option Str) (r : Request)
    (s : SignedIn)
    → cfg.allow_empty_membership ≡ false
    → is_empty cfg.base_url ≡ false
    → a.cfg.user_resolver ≡ new_resolver wire cfg
    → login_outcome a now rand r ≡ ok s
    → IsPlaced wire cfg s.user
login_outcome-IsPlaced wire cfg a now rand r s strict based installed h =
    let checked = login_outcome-Checked a now rand r s h in
    admit_identity-IsPlaced wire cfg strict a installed based login _ s.user
      (extract_user-IsOrgless a.idp checked.id_token a.cfg.extra_claims) checked.gated

-- With the Obol resolver installed, and sessions without an org not allowed, a re-resolution gives a
-- live session only to somebody who has a membership.
pub reresolve-members :
    (wire : Wire) (cfg : ObolConfig) (a : Auth) (p : SessionPayload) (fresh : Option Token)
    (v : User)
    → cfg.allow_empty_membership ≡ false
    → is_empty cfg.base_url ≡ false
    → a.cfg.user_resolver ≡ new_resolver wire cfg
    → reresolve a p fresh ≡ applied v
    → v.memberships ≢ []
reresolve-members wire cfg a p fresh v strict based installed h nobody =
    let (admitted, served) = (reresolve_applied_iff a p fresh v).0 h in
    let placed =
      admit_identity-IsPlaced wire cfg strict a installed based revalidation _ v
        (revalidation_identity-IsOrgless a p fresh) admitted in
    elim placed [
      | inl full ↦ full nobody
      | inr (orgless, (l, follow, moves)) ↦ elim served [
        | inl org ↦ apart (IsOrgless-has_no_org v orgless) org
        | inr stays ↦ unmoved moves stays
      ]
    ]
