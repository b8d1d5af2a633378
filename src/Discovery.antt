-- ===== src/Discovery.antt =====
-- discovery_retry.go: the retry loop around discovery. One attempt is a parameter: a function of the
-- time that its context is given. A run of the loop is the list of its rounds, with what the clock,
-- math/rand and the caller's context answer in each.
pub mod Delays
pub mod Attempts
pub mod Provider
pub mod Termination
use go_vai_oidc.Prelude.{
  ℕ, suc, ◌*◌, ◌%◌, ◌^◌, ◌-◌, ◌/◌, Bool, true, false, ◌||◌, Option, none, some, List, [], ◌∷◌, ltb,
  any, if◌then◌else◌, Result, ok, err,
}
use go_vai_oidc.Prelude.Int.{ℤ, pos, negsuc, ◌+ℤ◌, ◌-ℤ◌, leb_ℤ, ltb_ℤ}
use go_vai_oidc.Prelude.Text.{Str, codes, contains}
use go_vai_oidc.Session.Payload.{second}

-- What discovery failed with: whether errors.Is finds context.DeadlineExceeded, and the text.
pub record Failure : Type 0 where
  pub deadline_exceeded : Bool
  pub text : Str

abbrev pub needles : List Str
needles =
    codes "500 Internal Server Error"
    ∷ codes "502 Bad Gateway"
    ∷ codes "503 Service Unavailable"
    ∷ codes "504 Gateway Timeout"
    ∷ codes "408 Request Timeout"
    ∷ codes "429 Too Many Requests"
    ∷ codes "connection refused"
    ∷ codes "no such host"
    ∷ codes "network is unreachable"
    ∷ codes "i/o timeout"
    ∷ codes "connection reset"
    ∷ codes "EOF"
    ∷ codes "context deadline exceeded"
    ∷ []

-- `isDiscoveryRetryable`, for an error that is not nil.
unfoldable pub is_discovery_retryable : Failure → Bool
is_discovery_retryable f = f.deadline_exceeded || any (λ needle. contains f.text needle) needles

abbrev pub int64_span : ℕ
int64_span = 2 ^ 64

abbrev pub half_span : ℕ
half_span = 2 ^ 63

-- The int64 that the low 64 bits of a number are.
abbrev pub signed : ℕ → ℤ
signed low = if ltb low half_span then pos low else negsuc (int64_span - low - 1)

abbrev pub discovery_retry_base_delay : ℕ
discovery_retry_base_delay = 500000000

abbrev pub discovery_retry_max_delay : ℕ
discovery_retry_max_delay = 8 * second

abbrev pub discovery_retry_per_attempt_timeout : ℤ
discovery_retry_per_attempt_timeout = pos (15 * second)

-- discoveryRetryBaseDelay << (attempt - 1), with `failed` = attempt - 1.
unfoldable pub shifted : ℕ → ℤ
shifted failed = signed (discovery_retry_base_delay * 2 ^ failed % int64_span)

-- The base of the backoff.
unfoldable pub base_delay : ℕ → ℤ
base_delay failed =
    if ltb_ℤ (pos discovery_retry_max_delay) (shifted failed)
    then pos discovery_retry_max_delay
    else shifted failed

-- `random n` is what rand.Int63n(n) answers.
abbrev pub with_jitter : (ℕ → ℕ) → ℤ → ℤ
with_jitter random (negsuc n) = negsuc n
with_jitter random (pos n) = if ltb 0 n then pos n +ℤ pos (random (n / 2)) else pos n

module _ {ℓ} (P : Type ℓ) where
  -- The times at the head of the round and after the attempt, and whether the caller's context ends
  -- while the loop waits.
  pub record Round : Type ℓ where
    pub begun : ℤ
    pub attempt : ℤ → Result Failure P
    pub ended : ℤ
    pub random : ℕ → ℕ
    pub cancelled : Option Failure

-- The last failure, or the text that there was none, less the budget that the source names in it.
abbrev pub exhausted : Option Failure → Failure
exhausted none = record {
  deadline_exceeded = false;
  text = codes "vai-oidc: discovery budget exhausted without an attempt";
}
exhausted (some f) = f

-- The time that one attempt is given of what remains.
abbrev pub per_attempt : ℤ → ℤ
per_attempt remaining =
    if ltb_ℤ remaining discovery_retry_per_attempt_timeout
    then remaining
    else discovery_retry_per_attempt_timeout

module _ {ℓ} {P : Type ℓ} where
  abbrev pub wait :
      Option Failure → Failure → (Failure → Option (Result Failure P)) → Option (Result Failure P)
  wait none f next = next f
  wait (some reason) f next = some (err reason)

  -- The end of a round whose attempt answered.
  abbrev pub after_attempt :
      ℤ
      → ℕ
      → Round P
      → (Failure → Option (Result Failure P))
      → Result Failure P
      → Option (Result Failure P)
  after_attempt deadline failed r next (ok p) = some (ok p)
  after_attempt deadline failed r next (err f) =
      if is_discovery_retryable f
      then (if ltb_ℤ (deadline -ℤ r.ended) (with_jitter r.random (base_delay failed))
          then some (err f)
          else wait r.cancelled f next)
      else some (err f)

  -- The loop, after `failed` attempts; `none` while it still runs after the rounds.
  unfoldable pub attempts : ℤ → ℕ → Option Failure → List (Round P) → Option (Result Failure P)
  attempts deadline failed last [] = none
  attempts deadline failed last (r ∷ rs) =
      let next : Failure → Option (Result Failure P) =
        λ f. attempts deadline (suc failed) (some f) rs in
      let remaining = deadline -ℤ r.begun in
      if leb_ℤ remaining (pos 0)
      then some (err (exhausted last))
      else after_attempt deadline failed r next (r.attempt (per_attempt remaining))

  -- `discoverWithRetry`, started at `now`; `once` is discovery under the caller's own context.
  unfoldable pub discover_with_retry :
      ℤ → ℤ → Result Failure P → List (Round P) → Option (Result Failure P)
  unfolding attempts
  discover_with_retry budget now once rounds =
      if leb_ℤ budget (pos 0) then some once else attempts (now +ℤ budget) 0 none rounds
