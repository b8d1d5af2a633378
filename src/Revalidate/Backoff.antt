-- ===== src/Revalidate/Backoff.antt =====
-- revalidate.go: how long the provider and the resolver are left alone after an answer.
use go_vai_oidc.Prelude.{◌≡◌, refl, false, arith}
use go_vai_oidc.Prelude.Int.{ℤ, pos, negsuc, ◌+ℤ◌, ◌-ℤ◌, ◌≤ℤ◌, ◌<ℤ◌, +ℤ_parts, -ℤ_parts}
use go_vai_oidc.Config.{Config}
use go_vai_oidc.Session.Payload.{SessionPayload, second, unix, from_unix}
use go_vai_oidc.Revalidate.{
  transport_backoff, revalidate_transport_backoff, validation_anchor, floor_due, backed_off,
  retry_later,
}

-- The time of a unix second is at most one second behind the time that it was taken of.
pub from_unix-unix : (t : ℤ) → (from_unix (unix t) ≤ℤ t) × (t <ℤ from_unix (unix t) +ℤ pos second)
unfolding from_unix unix
from_unix-unix (pos n) = omega (arith, +ℤ_parts (from_unix (unix (pos n))) (pos second))
from_unix-unix (negsuc n) = omega (arith, +ℤ_parts (from_unix (unix (negsuc n))) (pos second))

-- The wait before a retry is positive but for an interval of one nanosecond, shorter than the
-- interval, and at most the fixed backoff.
pub transport_backoff_bounds :
    (cfg : Config)
    → pos 0 <ℤ cfg.revalidate_interval
    → (pos 0 ≤ℤ transport_backoff cfg)
      × (transport_backoff cfg <ℤ cfg.revalidate_interval)
      × (transport_backoff cfg ≤ℤ revalidate_transport_backoff)
unfolding transport_backoff
transport_backoff_bounds cfg h = ground arith

anchor_of :
    (cfg : Config) (p : SessionPayload) (t : ℤ)
    → p.last_validated ≡ unix t
    → pos 0 <ℤ unix t
    → validation_anchor cfg p ≡ unix t
unfolding validation_anchor
anchor_of cfg p t e h = rw e (ground arith)

-- A session validated at `t` is not due until a second before `t` and an interval.
floor_open :
    (cfg : Config) (p : SessionPayload) (t later : ℤ)
    → p.last_validated ≡ unix t
    → pos 0 <ℤ unix t
    → later +ℤ pos second ≤ℤ t +ℤ cfg.revalidate_interval
    → floor_due cfg p later ≡ false
unfolding floor_due
floor_open cfg p t later e h within = rw (anchor_of cfg p t e h) (
    ground (
      arith,
      from_unix-unix t,
      +ℤ_parts (from_unix (unix t)) (pos second),
      +ℤ_parts later (pos second),
      +ℤ_parts t cfg.revalidate_interval,
      -ℤ_parts later (from_unix (unix t)),
    ))

-- While the provider fails to answer, the session's next grant waits: until the backoff is over, up
-- to the second that rounding can take, the floor has not passed again. The backed-off anchor is
-- assumed to lie after 1970, since the code reads an earlier one as unrecorded.
backed_off-floor :
    (cfg : Config) (now later : ℤ) (p : SessionPayload)
    → pos 0 <ℤ unix (now +ℤ (transport_backoff cfg -ℤ cfg.revalidate_interval))
    → later +ℤ pos second ≤ℤ now +ℤ transport_backoff cfg
    → (floor_due cfg (backed_off cfg now p) later ≡ false) × ((backed_off cfg now p).exp ≡ p.exp)
unfolding backed_off
backed_off-floor cfg now later p recorded within =
    let wait = transport_backoff cfg in
    let gap = wait -ℤ cfg.revalidate_interval in
    (
      floor_open cfg (backed_off cfg now p) (now +ℤ gap) later refl recorded (
          omega (
            arith,
            within,
            -ℤ_parts wait cfg.revalidate_interval,
            +ℤ_parts now gap,
            +ℤ_parts (now +ℤ gap) cfg.revalidate_interval,
            +ℤ_parts now wait,
          )),
      refl,
    )

-- While the resolver fails to answer, the provider is not asked again before its own interval is
-- over, up to a second, and the session gains no life.
pub retry_later-floor :
    (cfg : Config) (now later : ℤ) (p : SessionPayload)
    → pos 0 <ℤ unix now
    → later +ℤ pos second ≤ℤ now +ℤ cfg.revalidate_interval
    → (floor_due cfg (retry_later cfg now p) later ≡ false) × ((retry_later cfg now p).exp ≡ p.exp)
unfolding retry_later
retry_later-floor cfg now later p recorded within =
    (floor_open cfg (retry_later cfg now p) now later refl recorded within, refl)
