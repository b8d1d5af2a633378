-- ===== src/Scenarios/Discovering.antt =====
-- The retry loop of discovery, on concrete input.
use go_vai_oidc.Prelude.{
  ℕ, ◌≡◌, ◌↔◌, ◌⊎◌, ◌<◌, ◌*◌, ◌^◌, refl, true, false, Option, none, some, List, [], ◌∷◌, Result, ok,
  err, arith,
}
use go_vai_oidc.Prelude.Int.{ℤ, pos, ◌+ℤ◌}
use go_vai_oidc.Prelude.Text.{Str, codes}
use go_vai_oidc.Session.Payload.{second}
use go_vai_oidc.Discovery.{
  Failure, Round, discover_with_retry, base_delay, discovery_retry_base_delay,
  discovery_retry_max_delay,
}
use go_vai_oidc.Discovery.Attempts.{Reaches, discover_with_retry_iff}
use go_vai_oidc.Discovery.Delays.{base_delay-vanishes}
use go_vai_oidc.Scenarios.World.{noon}

abbrev refused_connection : Failure
refused_connection = record {
  deadline_exceeded = false;
  text = codes "dial tcp: connection refused";
}

abbrev booting : Round ℕ
booting = record {
  begun = noon;
  attempt = λ timeout. err refused_connection;
  ended = noon;
  random = λ n. 0;
  cancelled = none;
}

abbrev booted : Round ℕ
booted = record {
  begun = noon +ℤ pos second;
  attempt = λ timeout. ok 7;
  ended = noon +ℤ pos second;
  random = λ n. 0;
  cancelled = none;
}

abbrev two_rounds : List (Round ℕ)
two_rounds = booting ∷ booted ∷ []

discover_with_retry_iff_example :
    (discover_with_retry (pos (90 * second)) noon (err refused_connection) two_rounds ≡ some (ok 7))
    ↔ Reaches (noon +ℤ pos (90 * second)) 7 0 two_rounds
discover_with_retry_iff_example =
    discover_with_retry_iff (pos (90 * second)) noon (err refused_connection) two_rounds 7 refl

second_attempt_succeeds :
    discover_with_retry (pos (90 * second)) noon (err refused_connection) two_rounds ≡ some (ok 7)
unfolding discover_with_retry go_vai_oidc.Prelude.Int.◌-ℤ◌ ◌+ℤ◌
    go_vai_oidc.Discovery.is_discovery_retryable go_vai_oidc.Prelude.Text.contains codes base_delay
    go_vai_oidc.Discovery.shifted
second_attempt_succeeds = refl

base_delay-vanishes_example : base_delay 60 ≡ pos 0
base_delay-vanishes_example = base_delay-vanishes 60 (omega arith)
