-- ===== src/Discovery/Attempts.antt =====
-- discovery_retry.go: when the retry loop succeeds.
use go_vai_oidc.Prelude.{
  ℕ, suc, ◌≡◌, refl, ◌↔◌, ◌⊎◌, inl, inr, true, false, Option, none, some, List, [], ◌∷◌, Result, ok,
  err, Bool-cases, Option-cases, some-eq, err-ne-ok,
}
use go_vai_oidc.Prelude.Int.{ℤ, pos, ◌+ℤ◌, ◌-ℤ◌, leb_ℤ, ltb_ℤ}
use go_vai_oidc.Discovery.{
  Failure, is_discovery_retryable, base_delay, with_jitter, Round, per_attempt, after_attempt,
  attempts, discover_with_retry,
}

module _ {ℓ} {P : Type ℓ} (deadline : ℤ) where
  -- What the attempt of a round answers.
  abbrev pub answer : Round P → Result Failure P
  answer r = r.attempt (per_attempt (deadline -ℤ r.begun))

  -- The budget is not used up at the head of the round.
  abbrev pub HasTime : Round P → Type 0
  HasTime r = leb_ℤ (deadline -ℤ r.begun) (pos 0) ≡ false

  -- A round after which the loop goes on: its attempt failed in a way that may pass, the wait after
  -- `failed` earlier failures fits what is left of the budget, and the caller has not given up.
  abbrev pub Retries : ℕ → Round P → Type ℓ
  Retries failed r =
      (f : Failure) × HasTime r
      × (answer r ≡ err f)
      × (is_discovery_retryable f ≡ true)
      × (ltb_ℤ (deadline -ℤ r.ended) (with_jitter r.random (base_delay failed)) ≡ false)
      × (r.cancelled ≡ none)

  -- Rounds that end with the provider `p`.
  pub data Reaches (p : P) : ℕ → List (Round P) → Type ℓ where
    succeeds :
        (failed : ℕ) (r : Round P) (rs : List (Round P))
        → HasTime r
        → answer r ≡ ok p
        → Reaches p failed (r ∷ rs)
    retried :
        (failed : ℕ) (r : Round P) (rs : List (Round P))
        → Retries failed r
        → Reaches p (suc failed) rs
        → Reaches p failed (r ∷ rs)

  none-ne-some : {m : Result Failure P} → ◌≡◌ {A = Option (Result Failure P)} none (some m) → ⊥
  none-ne-some h = cc

  -- One round: what it means for the rest that it ends with `p`.
  after_attempt-ok :
      (failed : ℕ) (r : Round P) (next : Failure → Option (Result Failure P)) (p : P)
      (m : Result Failure P)
      → after_attempt deadline failed r next m ≡ some (ok p)
      → (m ≡ ok p)
        ⊎ ((f : Failure) × (m ≡ err f)
            × (is_discovery_retryable f ≡ true)
            × (ltb_ℤ (deadline -ℤ r.ended) (with_jitter r.random (base_delay failed)) ≡ false)
            × (r.cancelled ≡ none)
            × (next f ≡ some (ok p)))
  after_attempt-ok failed r next p (ok q) h = inl (some-eq h)
  after_attempt-ok failed r next p (err f) h = elim (Bool-cases (is_discovery_retryable f)) [
    | inr permanent ↦ absurd (err-ne-ok (some-eq (rw permanent at h)))
    | inl passing ↦
        elim (Bool-cases (ltb_ℤ (deadline -ℤ r.ended) (with_jitter r.random (base_delay failed)))) [
          | inl late ↦ absurd (err-ne-ok (some-eq (rw (passing, late) at h)))
          | inr time ↦ elim (Option-cases r.cancelled) [
            | inl waits ↦ inr (f, refl, passing, time, waits, rw (passing, time, waits) at h)
            | inr (reason, gone) ↦ absurd (err-ne-ok (some-eq (rw (passing, time, gone) at h)))
          ]
        ]
  ]

  attempts-Reaches :
      (failed : ℕ) (last : Option Failure) (rs : List (Round P)) (p : P)
      → attempts deadline failed last rs ≡ some (ok p)
      → Reaches p failed rs
  unfolding attempts
  attempts-Reaches failed last [] p h = absurd (none-ne-some h)
  attempts-Reaches failed last (r ∷ rs) p h =
      elim (Bool-cases (leb_ℤ (deadline -ℤ r.begun) (pos 0))) [
        | inl over ↦ absurd (err-ne-ok (some-eq (rw over at h)))
        | inr time ↦
            elim (after_attempt-ok failed r (λ f. attempts deadline (suc failed) (some f) rs) p
              (answer r) (rw time at h)) [
                | inl found ↦ succeeds failed r rs time found
                | inr (f, e, passing, left, waits, later) ↦
                    retried failed r rs (f, time, e, passing, left, waits)
                      (attempts-Reaches (suc failed) (some f) rs p later)
              ]
      ]

  Reaches-attempts :
      (p : P) (failed : ℕ) (last : Option Failure) (rs : List (Round P))
      → Reaches p failed rs
      → attempts deadline failed last rs ≡ some (ok p)
  unfolding attempts
  Reaches-attempts p failed last rs (succeeds _ r rest time found) = rw (time, found) refl
  Reaches-attempts p failed last rs (retried _ r rest (f, time, e, passing, left, waits) later) =
      rw (time, e, passing, left, waits) (Reaches-attempts p (suc failed) (some f) rest later)

-- Discovery with a positive budget finds a provider exactly when, round after round, every attempt
-- before the one that answers it failed in a way that may pass, the wait fitted the budget and the
-- caller had not given up.
pub discover_with_retry_iff :
    {P : Type 0} (budget now : ℤ) (once : Result Failure P) (rounds : List (Round P)) (p : P)
    → leb_ℤ budget (pos 0) ≡ false
    → (discover_with_retry budget now once rounds ≡ some (ok p))
      ↔ Reaches (now +ℤ budget) p 0 rounds
unfolding discover_with_retry
discover_with_retry_iff budget now once rounds p positive = rw positive (
  attempts-Reaches (now +ℤ budget) 0 none rounds p,
  Reaches-attempts (now +ℤ budget) p 0 none rounds,
)
