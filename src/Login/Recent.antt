-- ===== src/Login/Recent.antt =====
-- auth.go with stepup.go: the time of authentication of a session that was asked to be recent.
use go_vai_oidc.Prelude.{
  ℕ, suc, ◌+◌, ◌-◌, ◌*◌, ◌/◌, ◌≤◌, ◌<◌, ◌≡◌, refl, ap, ◌∙◌, Bool, true, false, Option, none, some,
  [], ◌∷◌, ◌++◌, ok, arith,
}
use go_vai_oidc.Prelude.Int.{ℤ, pos, negsuc, ◌+ℤ◌, ◌≤ℤ◌}
use go_vai_oidc.Prelude.Text.{Str, codes, is_empty}
use go_vai_oidc.Prelude.Decimal.{int64_limit, itoa, format_int}
use go_vai_oidc.Config.{Config, flow_cookie_name}
use go_vai_oidc.Cookie.{Request, unique_cookie}
use go_vai_oidc.User.{User}
use go_vai_oidc.Auth.{Auth}
use go_vai_oidc.Idp.{Token, extract_user}
use go_vai_oidc.Session.Payload.{
  SessionPayload, second, unix, from_unix, unix_or_zero, time_or_zero, to_user,
}
use go_vai_oidc.StepUp.{
  seconds_to_epoch, max_age_max_seconds, max_age_cookie_value, parse_max_age_cookie,
  verify_requested_max_age, check_auth_time, auth_time_skew,
}
use go_vai_oidc.StepUp.Ages.{parse_max_age_cookie-max_age_cookie_value}
use go_vai_oidc.StepUp.Recent.{check_auth_time_iff}
use go_vai_oidc.Login.{SignedIn, retained, login_payload, login_outcome}
use go_vai_oidc.Login.Sound.{login_outcome-Checked}

retained-aut : (keep : Bool) (t : Token) (p : SessionPayload) → (retained keep t p).aut ≡ p.aut
retained-aut true t p = refl
retained-aut false t p = refl

login_payload-aut :
    (cfg : Config) (now : ℤ) (t : Token) (raw : Str) (auth_time : Option ℤ) (u : User)
    → (login_payload cfg now t raw auth_time u).aut ≡ unix_or_zero auth_time
unfolding login_payload go_vai_oidc.Session.Payload.from_user
login_payload-aut cfg now t raw auth_time u = retained-aut cfg.retain_tokens t _

value-full : (n : ℕ) (t : ℤ) → is_empty (max_age_cookie_value n t) ≡ false
unfolding max_age_cookie_value
value-full n t = front-full (itoa n) (format_int (unix t))
  where
    front-full : (s rest : Str) → is_empty (s ++ b'.' ∷ rest) ≡ false
    front-full [] rest = refl
    front-full (c ∷ s) rest = refl

-- A login that was started with a requested age has had its ID token's auth_time checked against it.
verified_age :
    (cfg : Config) (r : Request) (auth_time : Option ℤ) (n : ℕ) (begun : ℤ)
    → unique_cookie r (flow_cookie_name cfg (codes "vai_oidc_max_age"))
      ≡ ok (max_age_cookie_value n begun)
    → parse_max_age_cookie (max_age_cookie_value n begun) ≡ some (n, from_unix (unix begun))
    → verify_requested_max_age cfg r auth_time ≡ none
    → check_auth_time auth_time n (from_unix (unix begun)) ≡ none
unfolding verify_requested_max_age
verified_age cfg r auth_time n begun held parsed passed =
    rw (held, value-full n begun, parsed) at passed

-- In whole seconds, a time that is late enough is not before 1970.
whole_seconds :
    (at : ℤ) (n start : ℕ)
    → from_unix (pos start) ≤ℤ at +ℤ pos (n * second) +ℤ auth_time_skew
    → n + 30 < start
    → (sec : ℕ) × (unix at ≡ pos (suc sec)) × (start ≤ suc sec + n + 30)
unfolding from_unix unix ◌+ℤ◌
whole_seconds (pos at) n start late past =
    let enough : suc (at / second - 1) ≡ at / second = ground arith in
    (at / second - 1, rw enough refl, ground arith)
whole_seconds (negsuc at) n start late past = absurd (ground arith)

aged :
    (auth_time : Option ℤ) (n start : ℕ)
    → check_auth_time auth_time n (from_unix (pos start)) ≡ none
    → n + 30 < start
    → (sec : ℕ) × (unix_or_zero auth_time ≡ pos (suc sec)) × (start ≤ suc sec + n + 30)
unfolding unix_or_zero
aged auth_time n start passed past =
    let (at, known, late) = (check_auth_time_iff auth_time n (from_unix (pos start))).0 passed in
    let (sec, whole, recent) = whole_seconds at n start late past in
    (sec, rw (known, whole) refl, recent)

known_time :
    (z : ℤ) (sec : ℕ) → z ≡ pos (suc sec) → time_or_zero z ≡ some (from_unix (pos (suc sec)))
unfolding time_or_zero
known_time z sec e = ap time_or_zero e ∙ positive (suc sec) (ground arith)
  where
    positive : (n : ℕ) → 0 < n → time_or_zero (pos n) ≡ some (from_unix (pos n))
    positive n some_time = ground arith

-- A login that was started with a requested age gives a session whose time of authentication is
-- known and lies at most that age and half a minute before the start, in whole seconds. The request
-- holds the cookie that the start wrote, the age is within its limit, and the start lies behind 1970
-- by more than the age and half a minute, and within the range of a time.Time.
pub login_outcome-auth_time :
    (a : Auth) (now : ℤ) (rand : Option Str) (r : Request) (s : SignedIn) (n start : ℕ) (begun : ℤ)
    → login_outcome a now rand r ≡ ok s
    → unique_cookie r (flow_cookie_name a.cfg (codes "vai_oidc_max_age"))
      ≡ ok (max_age_cookie_value n begun)
    → unix begun ≡ pos start
    → n ≤ max_age_max_seconds
    → start + seconds_to_epoch < int64_limit
    → n + 30 < start
    → (at : ℕ) × ((to_user s.payload).auth_time ≡ some (from_unix (pos at))) × (start ≤ at + n + 30)
unfolding to_user
login_outcome-auth_time a now rand r s n start begun h held whole fits small past =
    let checked = login_outcome-Checked a now rand r s h in
    let claimed = (extract_user a.idp checked.id_token a.cfg.extra_claims).auth_time in
    let parsed =
      parse_max_age_cookie-max_age_cookie_value n start fits (omega arith) small begun whole in
    let passed = verified_age a.cfg r claimed n begun held parsed checked.recent in
    let (sec, at, recent) = aged claimed n start (rw whole at passed) past in
    let aut : s.payload.aut ≡ pos (suc sec) =
      ap (λ p. p.aut) checked.payload
      ∙ login_payload-aut a.cfg now checked.token checked.raw claimed s.user
      ∙ at in
    (suc sec, known_time s.payload.aut sec aut, recent)
