-- ===== src/Setup/Refused.antt =====
-- auth.go: which refusal of a configuration New answers; config.go: the order of the checks.
use go_vai_oidc.Prelude.{
  ℕ, ◌≡◌, refl, ◌≢◌, ◌↔◌, inl, inr, Bool, true, false, not, Option, none, some, List, [], ◌∷◌,
  arith, Result, ok, err, ◌>>=◌, err-injective, ok-ne-err, or_err, length, ◌==◌, All, Option-cases,
  Result-cases, sym, ap, ◌∙◌, some-eq,
}
use go_vai_oidc.Prelude.Int.{ℤ}
use go_vai_oidc.Prelude.Text.{Str}
use go_vai_oidc.Errors.{Error, just, invalid_config, session_key_invalid}
use go_vai_oidc.Config.{Config}
use go_vai_oidc.Redirect.{is_valid_redirect}
use go_vai_oidc.Idp.{Idp}
use go_vai_oidc.Discovery.{Failure}
use go_vai_oidc.Setup.{
  refuse_if, required_fields, require_all, check_interval, check_reresolve, check_host_prefix,
  check_values, is_bad_domain, validate, aes_key_length, apply_defaults,
}
use go_vai_oidc.Setup.Construction.{
  Platform, misconfigured, new_auth, build, built_from, discover_for,
}
use go_vai_oidc.Setup.Usable.{require_all-given, given-require_all}

-- Code that fails with `e` alone.
abbrev pub FailsWith : {A : Type 0} → Error → Result Error A → Type 0
FailsWith e m = (reason : Error) → m ≡ err reason → reason ≡ e

refuse_if-FailsWith : (b : Bool) (e : Error) → FailsWith e (refuse_if b e)
refuse_if-FailsWith true e reason h = cc
refuse_if-FailsWith false e reason h = absurd (ok-ne-err h)

>>=-FailsWith :
    {A B : Type 0} (e : Error) (first : Result Error A) (next : A → Result Error B)
    → FailsWith e first
    → ((x : A) → FailsWith e (next x))
    → FailsWith e (first >>= next)
>>=-FailsWith e (ok x) next h k reason failed = k x reason failed
>>=-FailsWith e (err f) next h k reason failed = h reason (ap err (err-injective failed))

ok-FailsWith : {A : Type 0} (e : Error) (x : A) → FailsWith e (ok x)
ok-FailsWith e x reason h = absurd (ok-ne-err h)

require_all-FailsWith : (fields : List Str) → FailsWith (just invalid_config) (require_all fields)
unfolding require_all
require_all-FailsWith [] = ok-FailsWith _ tt
require_all-FailsWith (s ∷ fields) =
    >>=-FailsWith _ _ _ (refuse_if-FailsWith _ _) (λ given. require_all-FailsWith fields)

check_interval-FailsWith : (cfg : Config) → FailsWith (just invalid_config) (check_interval cfg)
unfolding check_interval
check_interval-FailsWith cfg reason h = ground arith

check_reresolve-FailsWith : (cfg : Config) → FailsWith (just invalid_config) (check_reresolve cfg)
unfolding check_reresolve
check_reresolve-FailsWith cfg reason h = ground arith

check_host_prefix-FailsWith :
    (cfg : Config) → FailsWith (just invalid_config) (check_host_prefix cfg)
unfolding check_host_prefix
check_host_prefix-FailsWith cfg reason h = ground arith

check_values-FailsWith : (cfg : Config) → FailsWith (just invalid_config) (check_values cfg)
unfolding check_values
check_values-FailsWith cfg =
    >>=-FailsWith _ _ _ (refuse_if-FailsWith (is_bad_domain cfg.require_email_domain) _) (λ domain.
      >>=-FailsWith _ _ _ (refuse_if-FailsWith (not (is_valid_redirect cfg.post_login_redirect)) _)
        (λ local. >>=-FailsWith _ _ _ (check_interval-FailsWith cfg) (λ interval.
          >>=-FailsWith _ _ _ (check_reresolve-FailsWith cfg)
            (λ reresolve. check_host_prefix-FailsWith cfg))))

other_sentinel : just session_key_invalid ≢ just invalid_config
other_sentinel h = cc

-- Every required field is there, and the secret does not decode to a key of 32 bytes.
abbrev pub OnlyKeyIsBad : (Str → Option Str) → Config → Type 0
OnlyKeyIsBad decode cfg =
    All (λ s. s ≢ []) (required_fields cfg)
    × ((key : Str) → decode cfg.session_secret ≡ some key → length key ≢ aes_key_length)

is_sized : (n : ℕ) → n ≢ aes_key_length → not (n == aes_key_length) ≡ true
is_sized n h = ground arith

module _ (decode : Str → Option Str) (cfg : Config) where
  key_refused : OnlyKeyIsBad decode cfg → validate decode cfg ≡ err (just session_key_invalid)
  unfolding validate
  key_refused (given, bad) = elim (Option-cases (decode cfg.session_secret)) [
    | inl garbled ↦ rw (given-require_all (required_fields cfg) given, garbled) refl
    | inr (key, e) ↦
        rw (given-require_all (required_fields cfg) given, e, is_sized _ (bad key e)) refl
  ]

  -- `validate` behind the required fields.
  abbrev after_fields : Option Str → Result Error Str
  after_fields decoded = do
    key ← or_err decoded (just session_key_invalid)
    sized ← refuse_if (not (length key == aes_key_length)) (just session_key_invalid)
    values ← check_values cfg
    ok key

  unsized :
      (decoded : Option Str) (key : Str)
      → after_fields decoded ≡ err (just session_key_invalid)
      → decoded ≡ some key
      → length key ≢ aes_key_length
  unsized none key h e size = absurd cc
  unsized (some k) key h e size =
      let same : k ≡ key = some-eq e in
      absurd (
        other_sentinel
          (passed (check_values cfg) (rw (same, size) at h) (check_values-FailsWith cfg)))
    where
      passed :
          (m : Result Error (Unit {0}))
          → (m >>= λ values. ok key) ≡ err (just session_key_invalid)
          → FailsWith (just invalid_config) m
          → just session_key_invalid ≡ just invalid_config
      passed (ok u) h k = absurd (ok-ne-err h)
      passed (err e) h k = sym (err-injective h) ∙ k e refl

  refused_key : validate decode cfg ≡ err (just session_key_invalid) → OnlyKeyIsBad decode cfg
  unfolding validate
  refused_key h = elim (Result-cases (require_all (required_fields cfg))) [
    | inr (reason, e) ↦
        absurd (other_sentinel (sym (err-injective (rw e at h)) ∙ require_all-FailsWith _ reason e))
    | inl (u, e) ↦ (
      require_all-given (required_fields cfg) e,
      λ key. unsized (decode cfg.session_secret) key (rw e at h),
    )
  ]

module _ (platform : Platform) (now : ℤ) (cfg : Config) (e : Error) where
  built_from-found :
      (key : Str) (found : Option (Result Failure Idp))
      → built_from platform cfg key found ≢ some (err (misconfigured e))
  built_from-found key none h = cc
  built_from-found key (some (ok idp)) h = absurd (ok-ne-err (some-eq h))
  built_from-found key (some (err f)) h = cc

  build-misconfigured :
      (checked : Result Error Str)
      → build platform now cfg checked ≡ some (err (misconfigured e))
      → checked ≡ err e
  build-misconfigured (err reason) h = cc
  build-misconfigured (ok key) h = absurd (built_from-found key (discover_for platform now cfg) h)

-- New refuses a configuration for its session key exactly when every required field is there and
-- the secret does not decode to 32 bytes; discovery is then not tried.
pub new_auth-session_key_invalid_iff :
    (platform : Platform) (now : ℤ) (cfg : Config)
    → (new_auth platform now cfg ≡ some (err (misconfigured (just session_key_invalid))))
      ↔ OnlyKeyIsBad platform.decode_secret (apply_defaults cfg)
unfolding new_auth
new_auth-session_key_invalid_iff platform now cfg = (
  λ h.
      refused_key platform.decode_secret (apply_defaults cfg)
        (build-misconfigured platform now (apply_defaults cfg) _ _ h),
  λ h. rw (key_refused platform.decode_secret (apply_defaults cfg) h) refl,
)
