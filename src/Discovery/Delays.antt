-- ===== src/Discovery/Delays.antt =====
-- discovery_retry.go: how long the retry loop waits.
use go_vai_oidc.Prelude.{ℕ, zero, suc, ◌+◌, ◌*◌, ◌%◌, ◌^◌, ◌-◌, ◌≤◌, ◌<◌, ◌≡◌, refl, ◌⊎◌, arith}
use native.Mathlib.Nat.{pow-suc, pow-le-pow_right}
use go_vai_oidc.Prelude.Int.{pos}
use go_vai_oidc.Discovery.{
  discovery_retry_base_delay, discovery_retry_max_delay, shifted, base_delay, int64_span,
}

pow_shift : (k : ℕ) → 2 ^ (k + 56) ≡ 2 ^ k * 72057594037927936
pow_shift zero = refl
pow_shift (suc k) =
    let next : suc k + 56 ≡ suc (k + 56) = omega arith in
    rw (next, pow-suc 2 (k + 56), pow-suc 2 k) (omega (arith, pow_shift k))

-- Until the 36th attempt the base of the wait doubles from half a second up to its bound.
pub base_delay-doubles :
    (failed : ℕ)
    → failed ≤ 34
    → (base_delay failed ≡ pos (discovery_retry_base_delay * 2 ^ failed))
      ⊎ ((base_delay failed ≡ pos discovery_retry_max_delay)
          × (discovery_retry_max_delay < discovery_retry_base_delay * 2 ^ failed))
unfolding base_delay shifted
base_delay-doubles failed h =
    let low : 2 ^ failed ≤ 2 ^ 34 = pow-le-pow_right (omega arith) h in ground (arith, low)

-- From the 57th attempt on the shift has no bit left: the loop does not wait at all.
pub base_delay-vanishes : (failed : ℕ) → 56 ≤ failed → base_delay failed ≡ pos 0
unfolding base_delay shifted
base_delay-vanishes failed h =
    let k = failed - 56 in
    let same : k + 56 ≡ failed = omega arith in
    let gone : discovery_retry_base_delay * 2 ^ failed % int64_span ≡ 0 =
      rw (← same) (omega (arith, pow_shift k)) in
    rw gone refl
