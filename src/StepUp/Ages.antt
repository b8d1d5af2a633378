-- ===== src/StepUp/Ages.antt =====
-- stepup.go: the max_age parameter and the cookie that carries it across the login.
use go_vai_oidc.Prelude.{
  ℕ, ◌+◌, ◌≤◌, ◌<◌, ◌≡◌, refl, ◌≢◌, false, some, [], ◌∷◌, inl, inr, arith, ltb, Bool-cases, any,
  All, length, not,
}
use go_vai_oidc.Prelude.Int.{ℤ, pos}
use go_vai_oidc.Prelude.Text.{Str, is_empty, cut-append}
use go_vai_oidc.Prelude.Decimal.{
  itoa, format_int, parse_int, is_digit, itoa-digits, itoa-ne-nil, parse_int-itoa, int64_limit,
  length-itoa,
}
use go_vai_oidc.Session.Payload.{unix, from_unix}
use go_vai_oidc.StepUp.{
  seconds, parse_max_age, max_age_max_seconds, max_age_max_digits, max_age_cookie_value,
  parse_max_age_cookie, seconds_to_epoch,
}

digits_only : (s : Str) → All (λ c. (48 ≤ c) × (c ≤ 57)) s → any (λ c. not (is_digit c)) s ≡ false
digits_only [] h = refl
digits_only (c ∷ s) (d, h) = ground (arith, digits_only s h)

only_digits : (s : Str) → any (λ c. not (is_digit c)) s ≡ false → All (λ c. (48 ≤ c) × (c ≤ 57)) s
only_digits [] h = tt
only_digits (c ∷ s) h = (ground arith, only_digits s (ground arith))

is_empty-itoa : (n : ℕ) → is_empty (itoa n) ≡ false
is_empty-itoa n = nonempty (itoa n) (itoa-ne-nil n)
  where
    nonempty : (s : Str) → s ≢ [] → is_empty s ≡ false
    nonempty [] h = absurd (h refl)
    nonempty (c ∷ s) h = refl

-- Every age that fits the limit is read back from its decimal text.
pub parse_max_age-itoa : (n : ℕ) → n ≤ max_age_max_seconds → parse_max_age (itoa n) ≡ seconds n
unfolding parse_max_age
parse_max_age-itoa n h =
    let short : ltb max_age_max_digits (length (itoa n)) ≡ false =
      ground (arith, length-itoa 9 n (omega arith)) in
    rw
      (is_empty-itoa n, short, digits_only (itoa n) (itoa-digits n), parse_int-itoa n (omega arith))
      (ground arith)

-- What is accepted is a non-empty run of at most ten digits, and its value is within the limit.
pub parse_max_age_sound :
    (raw : Str) (n : ℕ)
    → parse_max_age raw ≡ seconds n
    → (n ≤ max_age_max_seconds)
      × (parse_int raw ≡ some (pos n))
      × (length raw ≤ max_age_max_digits)
      × All (λ c. (48 ≤ c) × (c ≤ 57)) raw
unfolding parse_max_age
parse_max_age_sound raw n h = elim (Bool-cases (any (λ c. not (is_digit c)) raw)) [
  | inl other ↦ ground arith
  | inr digits ↦ (ground arith, ground arith, ground arith, only_digits raw digits)
]

-- The callback reads back the age and the start of the login, to the second.
pub parse_max_age_cookie-max_age_cookie_value :
    (n started : ℕ)
    → n ≤ max_age_max_seconds
    → 0 < started
    → started + seconds_to_epoch < int64_limit
    → (at : ℤ) → unix at ≡ pos started
    → parse_max_age_cookie (max_age_cookie_value n at) ≡ some (n, from_unix (unix at))
unfolding parse_max_age_cookie max_age_cookie_value format_int
parse_max_age_cookie-max_age_cookie_value n started fits positive small at e =
    let small' : started < int64_limit = omega arith in
    rw (e, cut-append b'.' (itoa n) (itoa started) (no_dot (itoa n) (itoa-digits n)))
      (ground (arith, parse_max_age-itoa n fits, parse_int-itoa started small'))
  where
    no_dot : (s : Str) → All (λ c. (48 ≤ c) × (c ≤ 57)) s → All (λ c. c ≢ b'.') s
    no_dot [] h = tt
    no_dot (c ∷ s) (d, h) = (omega arith, no_dot s h)
