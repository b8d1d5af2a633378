-- ===== src/Discovery/Termination.antt =====
-- discovery_retry.go: that the retry loop ends. The clock does not run backwards, and a wait lasts
-- at least as long as it was asked to.
use go_vai_oidc.Prelude.{
  ℕ, zero, suc, ◌+◌, ◌*◌, ◌≤◌, ◌<◌, ◌≡◌, refl, inl, inr, true, Option, none, some, List, [], ◌∷◌,
  Result, ok, err, Bool-cases, arith, length,
}
use go_vai_oidc.Prelude.Int.{ℤ, pos, negsuc, pos_part, ◌+ℤ◌, ◌-ℤ◌, ◌≤ℤ◌, leb_ℤ, ltb_ℤ}
use go_vai_oidc.Session.Payload.{second}
use go_vai_oidc.Discovery.{
  Failure, is_discovery_retryable, shifted, base_delay, with_jitter, Round, per_attempt,
  after_attempt, wait, attempts, discover_with_retry,
}

-- How long a wait lasts at least, in nanoseconds; one that is not positive is over at once.
abbrev pub lasts : ℤ → ℕ
lasts wait = pos_part wait

-- The bases of the first `count` waits behind `failed` failures.
unfoldable pub delays : ℕ → ℕ → ℕ
delays failed zero = 0
delays failed (suc count) = lasts (base_delay failed) + delays (suc failed) count

jitter_adds : (random : ℕ → ℕ) (base : ℤ) → lasts base ≤ lasts (with_jitter random base)
unfolding ◌+ℤ◌
jitter_adds random (negsuc n) = omega arith
jitter_adds random (pos n) = ground arith

over_at :
    (deadline earliest begun : ℤ)
    → deadline ≤ℤ earliest +ℤ pos 0
    → earliest ≤ℤ begun
    → leb_ℤ (deadline -ℤ begun) (pos 0) ≡ true
unfolding ◌+ℤ◌ ◌-ℤ◌
over_at deadline earliest begun due begins = ground arith

due_next :
    (deadline earliest begun ended : ℤ) (base waited rest : ℕ)
    → deadline ≤ℤ earliest +ℤ pos (base + rest)
    → earliest ≤ℤ begun
    → begun ≤ℤ ended
    → base ≤ waited
    → deadline ≤ℤ (ended +ℤ pos waited) +ℤ pos rest
unfolding ◌+ℤ◌
due_next deadline earliest begun ended base waited rest due begins ends long = ground arith

module _ {ℓ} {P : Type ℓ} where
  -- The rounds keep the time, from `earliest` on: none starts before the wait of the one before it
  -- is over, and none ends before it starts.
  abbrev pub WellTimed : ℕ → ℤ → List (Round P) → Type 0
  WellTimed failed earliest [] = Unit
  WellTimed failed earliest (r ∷ rs) =
      (earliest ≤ℤ r.begun)
      × (r.begun ≤ℤ r.ended)
      × WellTimed (suc failed) (r.ended +ℤ pos (lasts (with_jitter r.random (base_delay failed))))
          rs

  abbrev pub Answers : Option (Result Failure P) → Type ℓ
  Answers o = (res : Result Failure P) × (o ≡ some res)

  wait-Answers :
      (gone : Option Failure) (f : Failure) (next : Failure → Option (Result Failure P))
      → ((f : Failure) → Answers (next f))
      → Answers (wait gone f next)
  wait-Answers none f next h = h f
  wait-Answers (some reason) f next h = (err reason, refl)

  after_attempt-Answers :
      (deadline : ℤ) (failed : ℕ) (r : Round P) (next : Failure → Option (Result Failure P))
      (m : Result Failure P)
      → ((f : Failure) → Answers (next f))
      → Answers (after_attempt deadline failed r next m)
  after_attempt-Answers deadline failed r next (ok p) h = (ok p, refl)
  after_attempt-Answers deadline failed r next (err f) h =
      elim (Bool-cases (is_discovery_retryable f)) [
        | inr permanent ↦ (err f, rw permanent refl)
        | inl passing ↦
            elim (Bool-cases
              (ltb_ℤ (deadline -ℤ r.ended) (with_jitter r.random (base_delay failed)))) [
                | inl late ↦ (err f, rw (passing, late) refl)
                | inr time ↦ rw (passing, time) (wait-Answers r.cancelled f next h)
              ]
      ]

  attempts-Answers :
      (deadline : ℤ) (count failed : ℕ) (earliest : ℤ) (last : Option Failure) (rs : List (Round P))
      → deadline ≤ℤ earliest +ℤ pos (delays failed count)
      → count < length rs
      → WellTimed failed earliest rs
      → Answers (attempts deadline failed last rs)
  unfolding attempts delays
  attempts-Answers deadline count failed earliest last [] due many timed = absurd (omega arith)
  attempts-Answers deadline zero failed earliest last (r ∷ rs) due many (begins, ends, timed) =
      rw (over_at deadline earliest r.begun due begins) (_, refl)
  attempts-Answers deadline (suc count) failed earliest last (r ∷ rs) due many
        (begins, ends, timed) =
      elim (Bool-cases (leb_ℤ (deadline -ℤ r.begun) (pos 0))) [
        | inl over ↦ rw over (_, refl)
        | inr time ↦ rw time (
            after_attempt-Answers deadline failed r _
              (r.attempt (per_attempt (deadline -ℤ r.begun)))
              (λ f.
                attempts-Answers deadline count (suc failed) _ (some f) rs
                  (due_next deadline earliest r.begun r.ended (lasts (base_delay failed)) _
                    (delays (suc failed) count) due begins ends
                    (jitter_adds r.random (base_delay failed)))
                  (omega arith) timed))
      ]

later_than :
    (now budget : ℤ) (low high : ℕ)
    → budget ≤ℤ pos low
    → low < high
    → now +ℤ budget ≤ℤ now +ℤ pos high
unfolding ◌+ℤ◌
later_than now budget low high small less = ground arith

-- The default budget of 90 seconds is shorter than the bases of the first fifteen waits.
default_delays : 90 * second < delays 0 15
unfolding delays base_delay shifted
default_delays = ground arith

-- Discovery ends: with a budget of up to the default 90 seconds, a clock that does not run backwards
-- and waits that last as long as asked, sixteen rounds are enough for an answer.
pub discover_with_retry-Answers :
    {P : Type 0} (budget now : ℤ) (once : Result Failure P) (rounds : List (Round P))
    → budget ≤ℤ pos (90 * second)
    → WellTimed 0 now rounds
    → 16 ≤ length rounds
    → Answers (discover_with_retry budget now once rounds)
unfolding discover_with_retry
discover_with_retry-Answers budget now once rounds small timed many =
    elim (Bool-cases (leb_ℤ budget (pos 0))) [
      | inl off ↦ rw off (once, refl)
      | inr on ↦ rw on (
          attempts-Answers (now +ℤ budget) 15 0 now none rounds
            (later_than now budget (90 * second) (delays 0 15) small default_delays) many timed)
    ]
