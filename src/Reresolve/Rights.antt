-- ===== src/Reresolve/Rights.antt =====
-- reresolve.go: a session's org and rights after a re-resolution, and when one applies.
use go_vai_oidc.Prelude.{
  ◌≡◌, refl, sym, ◌∙◌, ap, ◌↔◌, ◌⊎◌, inl, inr, Bool, true, false, ◌&&◌, Option, none, some, List,
  [], ◌∷◌, arith, Result, ok, err, Bool-cases, err-ne-ok, ok-injective, some-eq, subst,
}
use mathlib.Core.List.{Memᴰ}
use go_vai_oidc.Prelude.Text.{Str, str_eq, str_eq_iff}
use go_vai_oidc.Errors.{Error}
use go_vai_oidc.Config.{revalidation}
use go_vai_oidc.User.{Membership, User, redirect_target}
use go_vai_oidc.Idp.{Token}
use go_vai_oidc.Auth.{Auth}
use go_vai_oidc.Admission.{admit_identity}
use go_vai_oidc.Session.Payload.{SessionPayload, from_user}
use go_vai_oidc.Reresolve.{
  applied, ended, revalidation_identity, has_no_org, is_member_of, would_redirect, outcome_of,
  reresolve, keeps_org, apply_resolution,
}

member_of :
    (ms : List Membership) (org_id : Str)
    → is_member_of ms org_id ≡ true
    → (m : Membership) × Memᴰ m ms × (m.org_id ≡ org_id)
unfolding is_member_of
member_of [] org_id h = ground arith
member_of (m ∷ ms) org_id h = elim (Bool-cases (str_eq m.org_id org_id)) [
  | inl e ↦ (m, Memᴰ.head refl, (str_eq_iff m.org_id org_id).0 e)
  | inr n ↦ let (k, there, same) = member_of ms org_id (ground arith) in (k, Memᴰ.tail there, same)
]

-- A re-resolution replaces the memberships, roles and claims of a session by those of the answer; the
-- org is the answer's, or the one that was selected before, and then the answer still holds a
-- membership of that org.
pub apply_resolution-rights :
    (p : SessionPayload) (u : User)
    → let q = apply_resolution p u in
      (q.mbs ≡ u.memberships)
      × (q.rls ≡ u.realm_roles)
      × (q.claims ≡ u.claims)
      × ((q.org_id ≡ u.org_id)
          ⊎ ((q.org_id ≡ p.org_id)
              × ((m : Membership) × Memᴰ m u.memberships × (m.org_id ≡ p.org_id))))
unfolding apply_resolution
apply_resolution-rights p u =
    elim (Bool-cases (keeps_org p.org_id (from_user p u).org_id u.memberships)) [
      | inl kept ↦
          unfold from_user in
          (
            rw kept refl,
            rw kept refl,
            rw kept refl,
            inr (rw kept refl, member_of u.memberships p.org_id (ground arith)),
          )
      | inr new ↦ unfold from_user in (rw new refl, rw new refl, rw new refl, inl (rw new refl))
    ]

abbrev IsServed : User → Type 0
IsServed u = (has_no_org u ≡ false) ⊎ (redirect_target u.landing ≡ none)

served : (b : Bool) (o : Option Str) → (b && would_redirect o) ≡ false → (b ≡ false) ⊎ (o ≡ none)
served false o h = inl refl
served true none h = inr refl
served true (some url) h = ground arith

not_funnelled :
    (b : Bool) (o : Option Str) → (b ≡ false) ⊎ (o ≡ none) → (b && would_redirect o) ≡ false
not_funnelled b o (inl e) = rw e refl
not_funnelled true o (inr e) = rw e refl
not_funnelled false o (inr e) = refl

applied-injective : {u v : User} → applied u ≡ applied v → u ≡ v
applied-injective h = cc

some_ok-injective :
    {u v : User} → ◌≡◌ {A = Result Error (Option User)} (ok (some u)) (ok (some v)) → u ≡ v
some_ok-injective h = some-eq (ok-injective h)

outcome_of_iff :
    (m : Result Error (Option User)) (u : User)
    → (outcome_of m ≡ applied u)
      ↔ ((m ≡ ok (some u)) × ((has_no_org u ≡ false) ⊎ (redirect_target u.landing ≡ none)))
outcome_of_iff (err e) u = (λ h. ground arith, λ p. absurd (err-ne-ok p.0))
outcome_of_iff (ok none) u = (λ h. cc, λ p. cc)
outcome_of_iff (ok (some v)) u =
    elim (Bool-cases (has_no_org v && would_redirect (redirect_target v.landing))) [
      | inl funnel ↦ (
        λ h. absurd (differ (rw funnel at h)),
        λ p.
            let same : v ≡ u = some_ok-injective p.0 in
            let open_way : (has_no_org v && would_redirect (redirect_target v.landing)) ≡ false =
              not_funnelled (has_no_org v) (redirect_target v.landing)
                (subst IsServed (sym same) p.1) in
            absurd (clash (sym funnel ∙ open_way)),
      )
      | inr served_here ↦ (
        λ h.
            let same : v ≡ u = applied-injective (rw served_here at h) in
            (
              ap (λ w. ok (some w)) same,
              subst IsServed same (served (has_no_org v) (redirect_target v.landing) served_here),
            ),
        λ p. rw served_here (ap applied (some_ok-injective p.0)),
      )
    ]
  where
    differ : {w : User} → ended ≡ applied w → ⊥
    differ e = cc

    clash : ◌≡◌ {A = Bool} true false → ⊥
    clash e = cc

-- A re-resolution applies an answer exactly when the gates and the resolver admit the identity of
-- the revalidation as that user, and that user has an org or is not sent to the backend's landing.
pub reresolve_applied_iff :
    (a : Auth) (p : SessionPayload) (fresh : Option Token) (u : User)
    → (reresolve a p fresh ≡ applied u) ↔ (
        (admit_identity a.cfg revalidation (some (revalidation_identity a p fresh)) ≡ ok (some u))
        × ((has_no_org u ≡ false) ⊎ (redirect_target u.landing ≡ none)))
unfolding reresolve
reresolve_applied_iff a p fresh u =
    outcome_of_iff (admit_identity a.cfg revalidation (some (revalidation_identity a p fresh))) u
