-- ===== src/Obol/Answers.antt =====
-- obolresolver/obolresolver.go: the user that an answer of the service makes, in a login and in a
-- re-resolution.
use go_vai_oidc.Prelude.{
  ◌≡◌, refl, ap, subst, ◌↔◌, Bool, true, false, Option, none, some, List, [], ◌∷◌, ok, >>=-eq-ok,
  ok-injective, some-eq,
}
use go_vai_oidc.Prelude.Text.{Str}
use go_vai_oidc.User.{User, Landing, redirect_target}
use go_vai_oidc.Config.{Admission}
use go_vai_oidc.Obol.{
  IdentityEnsureMembership, IdentityEnsureLanding, IdentityEnsureResponse, ObolConfig, HttpClient,
  Wire, normalize_hosts, admit_landing, to_vai_memberships,
}
use go_vai_oidc.Obol.Resolver.{without_org, placed, ensure, resolve}
use go_vai_oidc.Obol.Landings.{IsFollowable, admit_landing_iff}

-- The landing of an answer, as it is carried.
abbrev pub landing_of : Wire → ObolConfig → IdentityEnsureResponse → Option Landing
landing_of wire cfg inner =
    admit_landing wire.parse_url inner.landing (normalize_hosts cfg.allowed_landing_hosts)

-- The users that an answer may be turned into: one with all its memberships, the first one's org
-- as the default; one without an org that the landing moves on; one without an org, if the
-- deployment allows it.
pub data Placement (wire : Wire) (cfg : ObolConfig) (u : User) (inner : IdentityEnsureResponse)
    : User → Type 0 where
  member :
      (m : IdentityEnsureMembership) (ms : List IdentityEnsureMembership)
      → inner.memberships ≡ m ∷ ms
      → Placement wire cfg u inner (record u {
        memberships = to_vai_memberships (m ∷ ms);
        org_id = m.org_id;
        landing = landing_of wire cfg inner;
      })
  funnelled :
      (l : IdentityEnsureLanding)
      → inner.memberships ≡ []
      → inner.landing ≡ some l
      → IsFollowable wire.parse_url cfg.allowed_landing_hosts l
      → Placement wire cfg u inner (record u { landing = landing_of wire cfg inner })
  allowed_empty :
      inner.memberships ≡ []
      → redirect_target (landing_of wire cfg inner) ≡ none
      → cfg.allow_empty_membership ≡ true
      → Placement wire cfg u inner (record u { landing = landing_of wire cfg inner })

module _ (wire : Wire) (cfg : ObolConfig) (u : User) (inner : IdentityEnsureResponse) where
  abbrev carried : Option Landing
  carried = landing_of wire cfg inner

  abbrev placed_by : Option User
  placed_by = placed cfg.allow_empty_membership u carried inner.memberships

  followable :
      (sent : Option IdentityEnsureLanding) {url : Str}
      → redirect_target
          (admit_landing wire.parse_url sent (normalize_hosts cfg.allowed_landing_hosts))
        ≡ some url
      → (l : IdentityEnsureLanding) × (sent ≡ some l)
        × IsFollowable wire.parse_url cfg.allowed_landing_hosts l
  unfolding admit_landing redirect_target
  followable none h = cc
  followable (some l) {url} h = (l, refl, ((admit_landing_iff _ _ l url).0 h).0)

  orgless-Placement :
      (target : Option Str) (allow : Bool) (v : User)
      → inner.memberships ≡ []
      → redirect_target carried ≡ target
      → cfg.allow_empty_membership ≡ allow
      → without_org allow (record u { landing = carried }) target ≡ some v
      → Placement wire cfg u inner v
  orgless-Placement (some url) allow v nobody moves flag h =
      let (l, sent, follow) = followable inner.landing moves in
      subst (Placement wire cfg u inner) (some-eq h) (funnelled l nobody sent follow)
  orgless-Placement none true v nobody stays flag h =
      subst (Placement wire cfg u inner) (some-eq h) (allowed_empty nobody stays flag)
  orgless-Placement none false v nobody stays flag h = cc

  placed-Placement :
      (rows : List IdentityEnsureMembership) (v : User)
      → inner.memberships ≡ rows
      → placed cfg.allow_empty_membership u carried rows ≡ some v
      → Placement wire cfg u inner v
  unfolding placed
  placed-Placement [] v same h =
      orgless-Placement (redirect_target carried) cfg.allow_empty_membership v same refl refl h
  placed-Placement (m ∷ ms) v same h =
      subst (Placement wire cfg u inner) (some-eq h) (member m ms same)

  Placement-placed : (v : User) → Placement wire cfg u inner v → placed_by ≡ some v
  unfolding placed
  Placement-placed _ (member m ms same) = rw same refl
  Placement-placed _ (funnelled l nobody sent follow) =
      let moves = (admit_landing_iff _ _ l l.landing_url).1 (follow, refl) in
      rw (nobody, sent, moves) refl
  Placement-placed _ (allowed_empty nobody stays flag) = rw (nobody, stays, flag) refl

-- The resolver answers with a user exactly when the call of the service gave an answer that places
-- the user so: with the memberships, or without an org only if a followable landing moves the
-- browser or the deployment allows it.
pub resolve_iff :
    (wire : Wire) (cfg : ObolConfig) (client : HttpClient) (kind : Admission) (u v : User)
    → (resolve wire cfg client kind (some u) ≡ ok (some v)) ↔ (
        (inner : IdentityEnsureResponse) × (ensure wire cfg client kind u ≡ ok inner)
        × Placement wire cfg u inner v)
unfolding resolve
resolve_iff wire cfg client kind u v = (
  λ h.
      let (inner, answered, made) = >>=-eq-ok (ensure wire cfg client kind u) _ h in
      (
        inner,
        answered,
        placed-Placement wire cfg u inner inner.memberships v refl (ok-injective made),
      ),
  λ (inner, answered, p). rw answered (ap ok (Placement-placed wire cfg u inner v p)),
)
