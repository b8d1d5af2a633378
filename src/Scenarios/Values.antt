-- ===== src/Scenarios/Values.antt =====
-- The checks on redirects, ages, addresses and roles, on concrete input.
use go_vai_oidc.Prelude.{◌≡◌, refl, arith, ◌++◌, none, some, [], ◌∷◌, ok, ◌⊎◌, true, false, ◌↔◌}
use mathlib.Core.List.{Memᴰ}
use go_vai_oidc.Prelude.Text.{codes, IsAscii}
use go_vai_oidc.Config.{Config, login, revalidation}
use go_vai_oidc.Reresolve.{applied, reresolve, revalidation_identity, has_no_org, apply_resolution}
use go_vai_oidc.Reresolve.Rights.{apply_resolution-rights, reresolve_applied_iff}
use go_vai_oidc.Admission.{admit_identity}
use go_vai_oidc.Admission.Domains.{IsInDomain}
use go_vai_oidc.Admission.Gates.{PassesVerified, IsAnswer, admit_identity_iff}
use go_vai_oidc.Redirect.{is_valid_redirect}
use go_vai_oidc.Redirect.Safe.{IsLocalPath, is_valid_redirect_iff}
use go_vai_oidc.Session.Payload.{SessionPayload}
use go_vai_oidc.User.{User, Membership, redirect_target}
use go_vai_oidc.Scenarios.World.{config, ada, session, deployment}

is_valid_redirect_iff_example :
    (is_valid_redirect (codes "/reports?id=7") ≡ true) ↔ IsLocalPath (codes "/reports?id=7")
is_valid_redirect_iff_example = is_valid_redirect_iff (codes "/reports?id=7")

abbrev at_work : User
at_work = record ada { email = codes "ada@sub@Work.example"; email_verified = true }

abbrev at_work_only : Config
at_work_only = record config { require_email_domain = codes "work.example" }

work-IsAscii : IsAscii (codes "work.example")
unfolding codes
work-IsAscii = ground arith

admit_identity_iff_example :
    (admit_identity at_work_only login (some at_work) ≡ ok (some at_work)) ↔ (
      PassesVerified (some at_work) false
      × IsInDomain (some at_work) (codes "work.example")
      × IsAnswer none login (some at_work) (some at_work))
admit_identity_iff_example =
    admit_identity_iff at_work_only login (some at_work) (some at_work) work-IsAscii

-- U+212A, the Kelvin sign, is admitted for a k, in the domain "work.example".
abbrev kelvin : User
kelvin = record ada {
  email = codes "ada@wor" ++ (226 ∷ 132 ∷ 170 ∷ codes ".example");
  email_verified = true;
}

the_kelvin_sign_is_a_k : admit_identity at_work_only login (some kelvin) ≡ ok (some kelvin)
unfolding codes admit_identity go_vai_oidc.Admission.require_verified
    go_vai_oidc.Admission.enforce_email_domain go_vai_oidc.Admission.email_domain_of
    go_vai_oidc.Prelude.Text.equal_fold
the_kelvin_sign_is_a_k = refl

abbrev lab : Membership
lab = record {
  org_id = codes "lab";
  org_name = [];
  org_slug = [];
  role = codes "admin";
  team_ids = codes "t1" ∷ codes "t2" ∷ [];
  security_officer = false;
}

abbrev researcher : User
researcher = record ada { memberships = lab ∷ [] }

abbrev in_lab : SessionPayload
in_lab = record session { org_id = codes "lab" }

apply_resolution-rights_example :
    let q = apply_resolution in_lab researcher in
    (q.mbs ≡ lab ∷ [])
    × (q.rls ≡ [])
    × (q.claims ≡ [])
    × ((q.org_id ≡ [])
        ⊎ ((q.org_id ≡ codes "lab")
            × ((m : Membership) × Memᴰ m (lab ∷ []) × (m.org_id ≡ codes "lab"))))
apply_resolution-rights_example = apply_resolution-rights in_lab researcher

reresolve_applied_iff_example :
    (reresolve (deployment (codes "ada") session) session none ≡ applied researcher) ↔ (
      (admit_identity config revalidation
          (some (revalidation_identity (deployment (codes "ada") session) session none))
        ≡ ok (some researcher))
      × ((has_no_org researcher ≡ false) ⊎ (redirect_target none ≡ none)))
reresolve_applied_iff_example =
    reresolve_applied_iff (deployment (codes "ada") session) session none researcher
