-- ===== src/Setup/Usable.antt =====
-- config.go: what a configuration that `validate` accepts is.
use go_vai_oidc.Prelude.{
  ℕ, ◌≡◌, refl, ◌≢◌, ◌↔◌, ◌⊎◌, inl, inr, Bool, true, false, ◌&&◌, not, Option, none, some, List, [],
  ◌∷◌, arith, ap, sym, ◌∙◌, if◌then◌else◌, ok, >>=-eq-ok, ok-injective, err-ne-ok, or_err, length,
  All, any, ◌==◌,
}
use go_vai_oidc.Prelude.Int.{pos, ◌<ℤ◌}
use go_vai_oidc.Prelude.Text.{Str, codes, str_eq_iff, is_empty, contains_any}
use go_vai_oidc.Errors.{Error, just, invalid_config}
use go_vai_oidc.Config.{Config}
use go_vai_oidc.Redirect.{is_valid_redirect}
use go_vai_oidc.Redirect.Safe.{IsLocalPath, is_valid_redirect_iff}
use go_vai_oidc.Setup.{
  refuse_if, required_fields, require_all, check_interval, check_reresolve, check_host_prefix,
  forbidden_runes, check_values, validate, aes_key_length,
}

-- Revalidation, where it is on, keeps the refresh tokens that it needs and comes due before a
-- session ends.
abbrev pub IntervalServes : Config → Type 0
IntervalServes cfg =
    pos 0 <ℤ cfg.revalidate_interval
    → (cfg.retain_tokens ≡ true) × (cfg.revalidate_interval <ℤ cfg.session_ttl)

-- Re-resolution, where it is on, has a revalidation to run in and a resolver to ask.
abbrev pub ReresolveServes : Config → Type 0
ReresolveServes cfg =
    cfg.reresolve_on_revalidate ≡ true
    → (pos 0 <ℤ cfg.revalidate_interval) × (cfg.user_resolver ≢ none)

-- A browser takes the cookies that are named with the host prefix.
abbrev pub HostPrefixServes : Config → Type 0
HostPrefixServes cfg =
    cfg.cookie_host_prefix ≡ true → (cfg.insecure_cookie ≡ false) × (cfg.cookie_path ≡ codes "/")

-- A configuration that says everything that is needed, and `key` is the key of its sessions.
pub record IsUsable (decode : Str → Option Str) (cfg : Config) (key : Str) : Type 0 where
  pub named :
      (cfg.client_id ≢ [])
      × (cfg.client_secret ≢ [])
      × (cfg.callback_url ≢ [])
      × (cfg.session_secret ≢ [])
  pub discoverable : (cfg.issuer_url ≢ []) ⊎ ((cfg.keycloak_url ≢ []) × (cfg.realm ≢ []))
  pub decoded : decode cfg.session_secret ≡ some key
  pub sized : length key ≡ aes_key_length
  pub bare_domain : All (λ c. any (λ d. c == d) forbidden_runes ≡ false) cfg.require_email_domain
  pub local : IsLocalPath cfg.post_login_redirect
  pub interval : IntervalServes cfg
  pub reresolve : ReresolveServes cfg
  pub host_prefix : HostPrefixServes cfg

refuse_if-ok : (b : Bool) (e : Error) {u : Unit {0}} → refuse_if b e ≡ ok u → b ≡ false
refuse_if-ok true e h = absurd (err-ne-ok h)
refuse_if-ok false e h = refl

nonempty_iff : (s : Str) → (is_empty s ≡ false) ↔ (s ≢ [])
nonempty_iff [] = (λ h. cc, λ h. absurd (h refl))
nonempty_iff (c ∷ s) = (λ h e. cc, λ h. refl)

pub require_all-given :
    (fields : List Str) {u : Unit {0}} → require_all fields ≡ ok u → All (λ s. s ≢ []) fields
unfolding require_all
require_all-given [] h = tt
require_all-given (s ∷ fields) h =
    let (_, here, rest) = >>=-eq-ok (refuse_if (is_empty s) (just invalid_config)) _ h in
    ((nonempty_iff s).0 (refuse_if-ok (is_empty s) _ here), require_all-given fields rest)

pub given-require_all : (fields : List Str) → All (λ s. s ≢ []) fields → require_all fields ≡ ok tt
unfolding require_all
given-require_all [] h = refl
given-require_all (s ∷ fields) (here, rest) =
    rw ((nonempty_iff s).1 here) (given-require_all fields rest)

check_interval_iff : (cfg : Config) → (check_interval cfg ≡ ok tt) ↔ IntervalServes cfg
unfolding check_interval
check_interval_iff cfg = ground arith

check_reresolve_iff : (cfg : Config) → (check_reresolve cfg ≡ ok tt) ↔ ReresolveServes cfg
unfolding check_reresolve
check_reresolve_iff cfg = ground arith

check_host_prefix_iff : (cfg : Config) → (check_host_prefix cfg ≡ ok tt) ↔ HostPrefixServes cfg
unfolding check_host_prefix
check_host_prefix_iff cfg = ground (arith, str_eq_iff cfg.cookie_path (codes "/"))

module _ (p : ℕ → Bool) where
  any-All : (s : Str) → any p s ≡ false → All (λ c. p c ≡ false) s
  any-All [] h = tt
  any-All (c ∷ s) h = (ground arith, any-All s (ground arith))

  All-any : (s : Str) → All (λ c. p c ≡ false) s → any p s ≡ false
  All-any [] h = refl
  All-any (c ∷ s) (here, rest) = rw here (All-any s rest)

domain_iff :
    (domain : Str)
    → ((not (is_empty domain) && contains_any domain forbidden_runes) ≡ false)
      ↔ All (λ c. any (λ d. c == d) forbidden_runes ≡ false) domain
unfolding contains_any
domain_iff [] = (λ h. tt, λ h. refl)
domain_iff (c ∷ s) = (any-All _ (c ∷ s), All-any _ (c ∷ s))

abbrev source_fields : Str → Str → Str → List Str
source_fields issuer keycloak realm = if is_empty issuer then keycloak ∷ realm ∷ [] else []

discoverable_of :
    (issuer keycloak realm : Str)
    → All (λ s. s ≢ []) (source_fields issuer keycloak realm)
    → (issuer ≢ []) ⊎ ((keycloak ≢ []) × (realm ≢ []))
discoverable_of [] keycloak realm (k, (r, _)) = inr (k, r)
discoverable_of (c ∷ s) keycloak realm h = inl (λ e. cc)

source_given :
    (issuer keycloak realm : Str)
    → (issuer ≢ []) ⊎ ((keycloak ≢ []) × (realm ≢ []))
    → All (λ s. s ≢ []) (source_fields issuer keycloak realm)
source_given [] keycloak realm (inl h) = absurd (h refl)
source_given [] keycloak realm (inr (k, r)) = (k, (r, tt))
source_given (c ∷ s) keycloak realm h = tt

or_err-ok : {A : Type 0} (o : Option A) (e : Error) {x : A} → or_err o e ≡ ok x → o ≡ some x
or_err-ok none e h = absurd (err-ne-ok h)
or_err-ok (some y) e h = ap some (ok-injective h)

not-false : (b : Bool) → not b ≡ false → b ≡ true
not-false b h = ground arith

sized_of : (n : ℕ) → not (n == aes_key_length) ≡ false → n ≡ aes_key_length
sized_of n h = ground arith

module _ (decode : Str → Option Str) (cfg : Config) (key : Str) where
  accepted : validate decode cfg ≡ ok key → IsUsable decode cfg key
  unfolding validate check_values
  accepted h =
      let (_, given, h1) = >>=-eq-ok (require_all (required_fields cfg)) _ h in
      let (k, decoded, h2) = >>=-eq-ok (or_err (decode cfg.session_secret) _) _ h1 in
      let (_, sized, h3) = >>=-eq-ok (refuse_if (not (length k == aes_key_length)) _) _ h2 in
      let (_, values, h4) = >>=-eq-ok (check_values cfg) _ h3 in
      let (_, domain, h5) = >>=-eq-ok (refuse_if _ _) _ values in
      let (_, local, h6) =
        >>=-eq-ok (refuse_if (not (is_valid_redirect cfg.post_login_redirect)) _) _ h5 in
      let (_, interval, h7) = >>=-eq-ok (check_interval cfg) _ h6 in
      let (_, reresolve, host) = >>=-eq-ok (check_reresolve cfg) _ h7 in
      let (a, (b, (c, (d, sources)))) = require_all-given (required_fields cfg) given in
      let same : k ≡ key = ok-injective h4 in
      record {
        named = (a, b, c, d);
        discoverable = discoverable_of cfg.issuer_url cfg.keycloak_url cfg.realm sources;
        decoded = or_err-ok _ _ decoded ∙ ap some same;
        sized = ap length (sym same) ∙ sized_of (length k) (refuse_if-ok _ _ sized);
        bare_domain = (domain_iff cfg.require_email_domain).0 (refuse_if-ok _ _ domain);
        local = (is_valid_redirect_iff _).0 (not-false _ (refuse_if-ok _ _ local));
        interval = (check_interval_iff cfg).0 interval;
        reresolve = (check_reresolve_iff cfg).0 reresolve;
        host_prefix = (check_host_prefix_iff cfg).0 host;
      }

  usable : IsUsable decode cfg key → validate decode cfg ≡ ok key
  unfolding validate check_values
  usable u =
      let (a, b, c, d) = u.named in
      let sources = source_given cfg.issuer_url cfg.keycloak_url cfg.realm u.discoverable in
      rw
        (
          given-require_all (required_fields cfg) (a, (b, (c, (d, sources)))),
          u.decoded,
          u.sized,
          (domain_iff cfg.require_email_domain).1 u.bare_domain,
          (is_valid_redirect_iff _).1 u.local,
          (check_interval_iff cfg).1 u.interval,
          (check_reresolve_iff cfg).1 u.reresolve,
          (check_host_prefix_iff cfg).1 u.host_prefix,
        )
        refl

-- `validate` accepts a configuration, with the key of its sessions, exactly when everything it
-- needs is there: the required fields, a secret that decodes to 32 bytes, a bare domain, a local
-- path to land on, and no switch that could not take effect.
pub validate_iff :
    (decode : Str → Option Str) (cfg : Config) (key : Str)
    → (validate decode cfg ≡ ok key) ↔ IsUsable decode cfg key
validate_iff decode cfg key = (accepted decode cfg key, usable decode cfg key)
