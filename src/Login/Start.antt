-- ===== src/Login/Start.antt =====
-- auth.go: `handleLogin`, which starts a login, and the parameters that it passes on.
use go_vai_oidc.Prelude.{Option, none, some, List, [], ◌∷◌, if◌then◌else◌}
use go_vai_oidc.Prelude.Int.{ℤ}
use go_vai_oidc.Prelude.Text.{Str, codes}
use go_vai_oidc.Prelude.Decimal.{itoa}
use go_vai_oidc.Config.{Config}
use go_vai_oidc.Cookie.{SetCookie, Request}
use go_vai_oidc.StepUp.{MaxAge, absent, malformed, seconds, parse_max_age, max_age_cookie_value}
use go_vai_oidc.Idp.{auth_code_url}
use go_vai_oidc.Auth.{Auth}
use go_vai_oidc.Redirect.{generate_state, state_cookie_value, is_valid_redirect}
use go_vai_oidc.Flow.{
  redirect, refuse, Response, cookie_oidc_state, cookie_pkce_verifier, cookie_oidc_max_age,
  set_flow_cookie, clear_flow_cookie, generate_pkce,
}

abbrev pub valid_or_empty : Str → Str
valid_or_empty s = if is_valid_redirect s then s else []

abbrev pub passed_on : Str → Str → List (Str × Str) → List (Str × Str)
passed_on key [] rest = rest
passed_on key (c ∷ v) rest = (key, c ∷ v) ∷ rest

-- `authCodeExtras`
unfoldable pub auth_code_extras : Request → List (Str × Str) → List (Str × Str)
auth_code_extras r more =
    passed_on (codes "kc_idp_hint") (r.query (codes "kc_idp_hint"))
      (passed_on (codes "prompt") (r.query (codes "prompt")) more)

abbrev pub max_age_marker : Config → ℤ → MaxAge → SetCookie
max_age_marker cfg now (seconds n) =
    set_flow_cookie cfg cookie_oidc_max_age (max_age_cookie_value n now)
max_age_marker cfg now absent = clear_flow_cookie cfg cookie_oidc_max_age
max_age_marker cfg now malformed = clear_flow_cookie cfg cookie_oidc_max_age

abbrev pub max_age_extra : MaxAge → List (Str × Str)
max_age_extra (seconds n) = (codes "max_age", itoa n) ∷ []
max_age_extra absent = []
max_age_extra malformed = []

abbrev pub begin_login : Auth → ℤ → Request → MaxAge → Option Str → Option (Str × Str) → Response
begin_login a now r age none pkce = record { cookies = []; answer = redirect a.cfg.logout_redirect }
begin_login a now r age (some state) none = record {
  cookies = [];
  answer = redirect a.cfg.logout_redirect;
}
begin_login a now r age (some state) (some (verifier, challenge)) = record {
  cookies =
      set_flow_cookie a.cfg cookie_oidc_state
        (state_cookie_value state (valid_or_empty (r.query (codes "redirect"))))
      ∷ set_flow_cookie a.cfg cookie_pkce_verifier verifier
      ∷ max_age_marker a.cfg now age
      ∷ [];
  answer = redirect (auth_code_url a.idp state challenge (auth_code_extras r (max_age_extra age)));
}

abbrev pub login_of : Auth → ℤ → Request → Option Str → Option Str → MaxAge → Response
login_of a now r state_bytes pkce_bytes malformed = record {
  cookies = [];
  answer = refuse 400 (codes "invalid max_age: must be a non-negative integer number of seconds");
}
login_of a now r state_bytes pkce_bytes absent =
    begin_login a now r absent (generate_state state_bytes) (generate_pkce a pkce_bytes)
login_of a now r state_bytes pkce_bytes (seconds n) =
    begin_login a now r (seconds n) (generate_state state_bytes) (generate_pkce a pkce_bytes)

-- `handleLogin`
unfoldable pub handle_login : Auth → ℤ → Option Str → Option Str → Request → Response
handle_login a now state_bytes pkce_bytes r =
    login_of a now r state_bytes pkce_bytes (parse_max_age (r.query (codes "max_age")))
