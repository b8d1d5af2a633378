-- ===== src/Revalidate/Timing.antt =====
-- revalidate.go: when a session is due for the provider or for its resolver, and the waits.
use go_vai_oidc.Prelude.{suc, ◌*◌, ◌/◌, Bool, ◌&&◌, if◌then◌else◌}
use go_vai_oidc.Prelude.Int.{ℤ, pos, negsuc, ◌-ℤ◌, leb_ℤ, ltb_ℤ, sub_ℕ}
use go_vai_oidc.Config.{Config}
use go_vai_oidc.Session.Payload.{SessionPayload, second, unix, from_unix}

abbrev pub revalidate_transport_backoff : ℤ
revalidate_transport_backoff = pos (30 * second)

abbrev pub half : ℤ → ℤ
half (pos n) = pos (n / 2)
half (negsuc n) = sub_ℕ 0 (suc n / 2)

-- `transportBackoff`
unfoldable pub transport_backoff : Config → ℤ
transport_backoff cfg =
    if leb_ℤ cfg.revalidate_interval revalidate_transport_backoff
    then half cfg.revalidate_interval
    else revalidate_transport_backoff

-- int64(d.Seconds()), which drops the fraction.
unfoldable pub whole_seconds : ℤ → ℤ
whole_seconds (pos n) = pos (n / second)
whole_seconds (negsuc n) = sub_ℕ 0 (suc n / second)

-- `validationAnchor`
unfoldable pub validation_anchor : Config → SessionPayload → ℤ
unfolding whole_seconds
validation_anchor cfg p =
    if ltb_ℤ (pos 0) p.last_validated
    then p.last_validated
    else p.exp -ℤ whole_seconds cfg.session_ttl

-- `resolveRetryDue`
unfoldable pub resolve_retry_due : Config → SessionPayload → ℤ → Bool
resolve_retry_due cfg p now =
    cfg.reresolve_on_revalidate
    && ltb_ℤ (pos 0) p.resolve_retry_at
    && leb_ℤ p.resolve_retry_at (unix now)

-- Whether the floor has passed.
unfoldable pub floor_due : Config → SessionPayload → ℤ → Bool
unfolding validation_anchor
floor_due cfg p now = leb_ℤ cfg.revalidate_interval (now -ℤ from_unix (validation_anchor cfg p))
