-- ===== src/User/Laws.antt =====
-- user.go: what the lookups answer.
use go_vai_oidc.Prelude.{◌≡◌, refl, sym, inl, inr, true, some, List, [], ◌∷◌, arith, Bool-cases}
use mathlib.Core.List.{Memᴰ}
use go_vai_oidc.Prelude.Text.{Str, str_eq, str_eq_iff, str_eq_self, is_empty}
use go_vai_oidc.User.{Membership, User, has_role, teams_in, team_ids_for_org}

-- A role check passes exactly for a role that the list holds.
pub has_role→Mem : (role : Str) (rs : List Str) → has_role role rs ≡ true → Memᴰ role rs
unfolding has_role
has_role→Mem role [] h = cc
has_role→Mem role (r ∷ rs) h = elim (Bool-cases (str_eq r role)) [
  | inl e ↦ Memᴰ.head (sym ((str_eq_iff r role).0 e))
  | inr n ↦ Memᴰ.tail (has_role→Mem role rs (ground arith))
]

-- A role that the list holds passes the check.
pub Mem→has_role : {role : Str} {rs : List Str} → Memᴰ role rs → has_role role rs ≡ true
unfolding has_role
Mem→has_role {role} (Memᴰ.head {x} e) = ground (arith, str_eq_self role, e)
Mem→has_role (Memᴰ.tail m) = ground (arith, Mem→has_role m)

teams_in_sound :
    (org_id team : Str) (ms : List Membership)
    → Memᴰ team (teams_in org_id ms)
    → (m : Membership) × Memᴰ m ms × (m.org_id ≡ org_id) × Memᴰ team m.team_ids
unfolding teams_in
teams_in_sound org_id team [] h = absurd (no_mem h)
  where
    no_mem : Memᴰ team [] → ⊥
    no_mem h = elim h [ ]
teams_in_sound org_id team (m ∷ ms) h = elim (Bool-cases (str_eq m.org_id org_id)) [
  | inl e ↦ (m, Memᴰ.head refl, (str_eq_iff m.org_id org_id).0 e, rw (e, teams_in) at h)
  | inr n ↦
      let (k, there, same, has) = teams_in_sound org_id team ms (rw (n, teams_in) at h) in
      (k, Memᴰ.tail there, same, has)
]

-- The teams reported for an org are the teams of one membership of the user in that org: never
-- those of another org.
pub team_ids_for_org_sound :
    (u : User) (org_id team : Str)
    → Memᴰ team (team_ids_for_org (some u) org_id)
    → (m : Membership) × Memᴰ m u.memberships × (m.org_id ≡ org_id) × Memᴰ team m.team_ids
unfolding team_ids_for_org
team_ids_for_org_sound u org_id team h = elim (Bool-cases (is_empty org_id)) [
  | inl e ↦ absurd (no_mem (rw e at h))
  | inr n ↦ teams_in_sound org_id team u.memberships (rw n at h)
]
  where
    no_mem : Memᴰ team [] → ⊥
    no_mem h = elim h [ ]
