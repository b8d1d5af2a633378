-- ===== src/Login/Return.antt =====
-- auth.go: what a login start leaves in the browser, and what the callback reads of it.
use go_vai_oidc.Prelude.{true, ◌≡◌, ok, All}
use go_vai_oidc.Prelude.Int.{ℤ}
use go_vai_oidc.Prelude.Text.{Str, codes}
use go_vai_oidc.Config.{Config, flow_cookie_name}
use go_vai_oidc.Cookie.{Request, cookies_named, is_cookie_byte, sanitized}
use go_vai_oidc.Cookie.Browser.{Jar}
use go_vai_oidc.Auth.{Auth}
use go_vai_oidc.Redirect.{hex, parse_state_cookie}
use go_vai_oidc.Flow.{cookie_oidc_state, cookie_pkce_verifier, flow_cookie}
use go_vai_oidc.Login.{valid_or_empty}

-- Text that http.SetCookie writes as it is.
abbrev pub IsCookieText : Str → Type 0
IsCookieText = All (λ c. is_cookie_byte c ≡ true)

module _ (a : Auth) (now : ℤ) (r next : Request) (state_bytes pkce_bytes : Str) (later : ℤ)
    (jar : Jar) where
  -- What the callback finds of a login: its state, what is left of the redirect if that was valid,
  -- and its verifier.
  abbrev pub Returns : Type 0
  Returns =
      (value : Str) × (flow_cookie a.cfg next cookie_oidc_state ≡ ok value)
      × (parse_state_cookie value
          ≡ (hex state_bytes, sanitized (valid_or_empty (r.query (codes "redirect")))))
      × (flow_cookie a.cfg next cookie_pkce_verifier ≡ ok (a.crypto.encode pkce_bytes))

  -- Of a name, the request carries the jar's cookies alone.
  abbrev pub Carries : Str → Jar → Type 0
  Carries base held =
      cookies_named (flow_cookie_name a.cfg base) next.cookies
      ≡ cookies_named (flow_cookie_name a.cfg base) held
