-- ===== src/Revalidate/Ends.antt =====
-- revalidate.go: when revalidation ends a session.
use go_vai_oidc.Prelude.{
  ◌≡◌, refl, sym, ◌↔◌, ◌⊎◌, inl, inr, Bool, true, false, Option, none, some, ok, err, Bool-cases,
  err-ne-ok, ok-ne-err, err-injective, arith,
}
use go_vai_oidc.Prelude.Int.{ℤ, pos, leb_ℤ}
use go_vai_oidc.Prelude.Text.{Str, codes, str_eq, str_eq_iff, is_empty}
use go_vai_oidc.Errors.{Error, as_retrieve, just, session_revoked}
use go_vai_oidc.Idp.{Token}
use go_vai_oidc.Auth.{Auth}
use go_vai_oidc.Reresolve.{applied, soft, ended, reresolve}
use go_vai_oidc.Session.Payload.{SessionPayload}
use go_vai_oidc.Revalidate.{
  Served, GrantShared, ResolveShared, Flights, apply_grant, apply_retry, revalidate_at_idp,
  retry_resolution, resolve_retry_due, floor_due, maybe_revalidate, is_session_revoked, grant_key,
  resolve_key, grant_work,
}

-- The answers of a grant flight that end the session: the provider's refusal invalid_grant, or a
-- grant after which the resolver no longer admits the person.
abbrev pub EndedByGrant : GrantShared → Type 0
EndedByGrant shared =
    ((e : Error) × (shared ≡ err e) × (as_retrieve e ≡ some (codes "invalid_grant")))
    ⊎ ((fresh : Token) × (aut : ℤ) × (shared ≡ ok (fresh, aut, some ended)))

is_session_revoked_iff :
    (e : Error) → (is_session_revoked e ≡ true) ↔ (as_retrieve e ≡ some (codes "invalid_grant"))
unfolding is_session_revoked
is_session_revoked_iff e = of_answer (as_retrieve e)
  where
    of_answer :
        (m : Option Str)
        → (elim m [ none ↦ false | some code ↦ str_eq code (codes "invalid_grant") ] ≡ true)
          ↔ (m ≡ some (codes "invalid_grant"))
    of_answer none = (λ h. cc, λ h. cc)
    of_answer (some code) = ground (arith, str_eq_iff code (codes "invalid_grant"))

abbrev pub IsSignedOut : Served → Type 0
IsSignedOut s = s.result ≡ err (just session_revoked)

module _ (a : Auth) (rand : Option Str) (now : ℤ) (p : SessionPayload) where
  apply_grant_iff :
      (shared : GrantShared) → IsSignedOut (apply_grant a rand now p shared) ↔ EndedByGrant shared
  unfolding apply_grant
  apply_grant_iff (err e) = elim (Bool-cases (is_session_revoked e)) [
    | inl gone ↦ (λ h. inl (e, refl, (is_session_revoked_iff e).0 gone), λ h. rw gone)
    | inr other ↦ (
      λ h. absurd (ok-ne-err (rw other at h)),
      λ h. elim h [
        | inl (e', same, gone) ↦
            absurd (differ (rw (err-injective same) at other) ((is_session_revoked_iff e').1 gone))
        | inr (fresh, aut, same) ↦ absurd (err-ne-ok same)
      ],
    )
  ]
    where
      differ : {b : Bool} → b ≡ false → b ≡ true → ⊥
      differ x y = cc
  apply_grant_iff (ok (fresh, aut, none)) = (
    λ h. absurd (ok-ne-err h),
    λ h. elim h [ inl (e, same, gone) ↦ absurd (ok-ne-err same) | inr (t, u, same) ↦ cc ],
  )
  apply_grant_iff (ok (fresh, aut, some ended)) = (λ h. inr (fresh, aut, refl), λ h. refl)
  apply_grant_iff (ok (fresh, aut, some soft)) = (
    λ h. absurd (ok-ne-err h),
    λ h. elim h [ inl (e, same, gone) ↦ absurd (ok-ne-err same) | inr (t, u, same) ↦ cc ],
  )
  apply_grant_iff (ok (fresh, aut, some (applied u))) = (
    λ h. absurd (ok-ne-err h),
    λ h. elim h [ inl (e, same, gone) ↦ absurd (ok-ne-err same) | inr (t, u, same) ↦ cc ],
  )

  apply_retry_iff :
      (shared : ResolveShared) → IsSignedOut (apply_retry a rand now p shared) ↔ (shared ≡ ok ended)
  unfolding apply_retry
  apply_retry_iff (err e) = (λ h. cc, λ h. cc)
  apply_retry_iff (ok ended) = (λ h. refl, λ h. refl)
  apply_retry_iff (ok soft) = (λ h. cc, λ h. cc)
  apply_retry_iff (ok (applied u)) = (λ h. cc, λ h. cc)

  -- What ends a session: with revalidation on, either the floor has passed, the session holds a
  -- refresh token and the grant's answer ends it, or the floor has not passed, a retry of the
  -- resolver is due and it no longer admits the person.
  abbrev pub IsEnded : Flights → Type 0
  IsEnded f =
      (leb_ℤ a.cfg.revalidate_interval (pos 0) ≡ false)
      × (((floor_due a.cfg p now ≡ true)
            × (is_empty p.refresh_token ≡ false)
            × EndedByGrant (f.fly_grant (grant_key a p) (grant_work a p)))
          ⊎ ((floor_due a.cfg p now ≡ false)
              × (resolve_retry_due a.cfg p now ≡ true)
              × (f.fly_resolve (resolve_key a p) (ok (reresolve a p none)) ≡ ok ended)))

  -- Revalidation ends a session exactly when the grant that is due was refused by an explicit
  -- invalid_grant, or it succeeded and the resolver no longer admits the person, or a due retry of
  -- the resolver no longer does. With revalidation off, before the floor, without a refresh token,
  -- and on every other error of the provider, of the resolver or of the flight it does not.
  pub maybe_revalidate-IsEnded_iff :
      (f : Flights) → IsSignedOut (maybe_revalidate a f rand now p) ↔ IsEnded f
  unfolding maybe_revalidate revalidate_at_idp retry_resolution
  maybe_revalidate-IsEnded_iff f =
      let g = apply_grant_iff (f.fly_grant (grant_key a p) (grant_work a p)) in
      let r = apply_retry_iff (f.fly_resolve (resolve_key a p) (ok (reresolve a p none))) in
      elim (Bool-cases (leb_ℤ a.cfg.revalidate_interval (pos 0))) [
        | inl off ↦ rw off (λ h. absurd (ok-ne-err h), λ h. cc)
        | inr on ↦ elim (Bool-cases (floor_due a.cfg p now)) [
          | inl due ↦ elim (Bool-cases (is_empty p.refresh_token)) [
            | inl bare ↦
                rw (on, due, bare)
                  (λ h. absurd (ok-ne-err h), λ h. elim h.1 [ inl x ↦ cc | inr x ↦ cc ])
            | inr held ↦
                rw (on, due, held)
                  (
                    λ h. (refl, inl (refl, refl, g.0 h)),
                    λ h. elim h.1 [ inl x ↦ g.1 x.2 | inr x ↦ absurd (differ x.0) ],
                  )
          ]
          | inr early ↦ elim (Bool-cases (resolve_retry_due a.cfg p now)) [
            | inl retry ↦
                rw (on, early, retry)
                  (
                    λ h. (refl, inr (refl, refl, r.0 h)),
                    λ h. elim h.1 [ inl x ↦ absurd (differ (sym x.0)) | inr x ↦ r.1 x.2 ],
                  )
            | inr not_yet ↦
                rw (on, early, not_yet)
                  (λ h. absurd (ok-ne-err h), λ h. elim h.1 [ inl x ↦ cc | inr x ↦ cc ])
          ]
        ]
      ]
    where
      differ : ◌≡◌ {A = Bool} true false → ⊥
      differ e = cc
