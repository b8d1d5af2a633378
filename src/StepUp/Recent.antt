-- ===== src/StepUp/Recent.antt =====
-- stepup.go: the time of authentication, in a check and in a refresh.
use go_vai_oidc.Prelude.{
  ℕ, ◌*◌, ◌≡◌, refl, ◌↔◌, ◌⊎◌, inl, inr, true, false, Option, none, some, arith, Option-cases,
  some-eq, sym, ◌∙◌,
}
use go_vai_oidc.Prelude.Int.{ℤ, pos, ◌+ℤ◌, ◌-ℤ◌, ◌≤ℤ◌, ◌<ℤ◌, ltb_ℤ, -ℤ_parts, +ℤ_parts}
use go_vai_oidc.Session.Payload.{second}
use go_vai_oidc.User.{User}
use go_vai_oidc.StepUp.{
  recently_authenticated, auth_time_skew, check_auth_time, merge_refreshed_auth_time, is_recent,
}

-- A refresh never moves a known time of authentication forward and never makes it unknown: the
-- result is the stored or the refreshed value, and at most the stored one. An unknown time is filled
-- by a known refreshed value, and stays as it was when the refreshed value is unknown too.
pub merge_refreshed_auth_time_never_advances :
    (stored refreshed : ℤ)
    → let merged = merge_refreshed_auth_time stored refreshed in
      ((pos 0 <ℤ stored)
        × (pos 0 <ℤ merged)
        × (merged ≤ℤ stored)
        × ((merged ≡ stored) ⊎ (merged ≡ refreshed)))
      ⊎ ((stored ≤ℤ pos 0) × (pos 0 <ℤ refreshed) × (merged ≡ refreshed))
      ⊎ ((stored ≤ℤ pos 0) × (refreshed ≤ℤ pos 0) × (merged ≡ stored))
unfolding merge_refreshed_auth_time
merge_refreshed_auth_time_never_advances stored refreshed = ground arith

is_recent_iff :
    (at window now : ℤ)
    → (is_recent at window now ≡ true)
      ↔ ((pos 0 <ℤ window) × (at ≤ℤ now +ℤ auth_time_skew) × (now ≤ℤ at +ℤ window))
is_recent_iff at window now = ground (
  arith,
  -ℤ_parts now at,
  -ℤ_parts (pos 0) auth_time_skew,
  +ℤ_parts now auth_time_skew,
  +ℤ_parts at window,
)

-- A user counts as recently authenticated exactly when the time of authentication is known, the
-- window is positive, that time is at most the skew ahead of the clock, and at most the window
-- behind it.
recently_authenticated_iff :
    (u : User) (window now : ℤ)
    → (recently_authenticated (some u) window now ≡ true) ↔ (
        (at : ℤ) × (u.auth_time ≡ some at)
        × (pos 0 <ℤ window)
        × (at ≤ℤ now +ℤ auth_time_skew)
        × (now ≤ℤ at +ℤ window))
unfolding recently_authenticated
recently_authenticated_iff u window now = elim (Option-cases u.auth_time) [
  | inl unknown ↦
      (λ h. absurd (not_recent (rw unknown at h)), λ p. absurd (none-ne-some (sym unknown ∙ p.1)))
  | inr (at, known) ↦ (
    λ h. let (a, b, c) = (is_recent_iff at window now).0 (rw known at h) in (at, known, a, b, c),
    λ p.
        let same : at ≡ p.0 = some-eq (sym known ∙ p.1) in
        rw (known, same) ((is_recent_iff p.0 window now).1 (p.2, p.3, p.4)),
  )
]
  where
    not_recent : false ≡ true → ⊥
    not_recent e = cc

    none-ne-some : {a : ℤ} → ◌≡◌ {A = Option ℤ} none (some a) → ⊥
    none-ne-some e = cc

earliest_iff :
    (at : ℤ) (age : ℤ) (started : ℤ)
    → (ltb_ℤ at (started -ℤ age -ℤ auth_time_skew) ≡ false)
      ↔ (started ≤ℤ at +ℤ age +ℤ auth_time_skew)
earliest_iff at age started = ground (
  arith,
  -ℤ_parts started age,
  -ℤ_parts (started -ℤ age) auth_time_skew,
  +ℤ_parts at age,
  +ℤ_parts (at +ℤ age) auth_time_skew,
)

-- The callback's check passes exactly for a known time that does not predate the login's start by
-- more than the requested age and the skew.
pub check_auth_time_iff :
    (auth_time : Option ℤ) (max_age : ℕ) (started : ℤ)
    → (check_auth_time auth_time max_age started ≡ none) ↔ (
        (at : ℤ) × (auth_time ≡ some at)
        × (started ≤ℤ at +ℤ pos (max_age * second) +ℤ auth_time_skew))
unfolding check_auth_time
check_auth_time_iff none max_age started = (λ e. cc, λ p. cc)
check_auth_time_iff (some at) max_age started =
    let (to, from) = earliest_iff at (pos (max_age * second)) started in
    (
      λ e. (at, refl, to (ground arith)),
      λ p. let same : at ≡ p.0 = some-eq p.1 in rw (from (rw same p.2)),
    )
