-- ===== src/Cookie.antt =====
-- Cookies: what a handler adds to the response (the http.SetCookie calls of session.go), what it
-- reads of the request (cookieguard.go), and the rest of the request that the handlers look at.
pub mod Browser
use go_vai_oidc.Prelude.{
  ℕ, Bool, true, false, ◌&&◌, ◌||◌, not, leb, ◌==◌, Option, none, some, List, [], ◌∷◌,
  if◌then◌else◌, Result, ok, err,
}
use go_vai_oidc.Prelude.Int.{ℤ}
use go_vai_oidc.Prelude.Text.{Str, codes, str_eq}
use go_vai_oidc.Errors.{Error, just, no_cookie, duplicate_cookie}

-- `expires` in unix seconds, `max_age` in seconds; `delete` is MaxAge -1.
pub data Life : Type 0 where
  expires : ℤ → Life
  max_age : ℕ → Life
  delete : Life

-- Every cookie of the package is SameSite=Lax.
pub record SetCookie : Type 0 where
  pub name : Str
  pub value : Str
  pub path : Str
  pub life : Life
  pub http_only : Bool
  pub secure : Bool

-- `header` and `query` answer the empty string for what the request does not carry.
pub record Request : Type 0 where
  pub cookies : List (Str × Str)
  pub header : Str → Str
  pub query : Str → Str
  pub request_uri : Str

-- r.Cookie(name): the first cookie of that name.
unfoldable pub cookie : Str → List (Str × Str) → Option Str
cookie name [] = none
cookie name ((n, v) ∷ cs) = if str_eq n name then some v else cookie name cs

-- r.CookiesNamed(name)
unfoldable pub cookies_named : Str → List (Str × Str) → List Str
cookies_named name [] = []
cookies_named name ((n, v) ∷ cs) =
    let rest = cookies_named name cs in if str_eq n name then v ∷ rest else rest

abbrev pub exactly_one : List Str → Result Error Str
exactly_one [] = err (just no_cookie)
exactly_one (v ∷ []) = ok v
exactly_one (v ∷ w ∷ vs) = err (just duplicate_cookie)

-- `uniqueCookie`
unfoldable pub unique_cookie : Request → Str → Result Error Str
unique_cookie r name = exactly_one (cookies_named name r.cookies)

-- `isSameSiteNavigation`
unfoldable pub is_same_site_navigation : Request → Bool
unfolding str_eq codes
is_same_site_navigation r =
    let site = r.header (codes "Sec-Fetch-Site") in
    str_eq site (codes "same-site") || str_eq site (codes "same-origin")

-- `writeSessionCookie`. Its values are base64url text and the headers of chunks, which http.SetCookie
-- writes as they are.
abbrev pub write_session_cookie : Str → Str → Str → ℤ → Bool → SetCookie
write_session_cookie name value path exp secure = record {
  name = name;
  value = value;
  path = path;
  life = expires exp;
  http_only = true;
  secure = secure;
}

-- `expireSessionCookie`
abbrev pub expire_session_cookie : Str → Str → Bool → SetCookie
expire_session_cookie name path secure = record {
  name = name;
  value = [];
  path = path;
  life = delete;
  http_only = true;
  secure = secure;
}

abbrev pub oidc_cookie_max_age : ℕ
oidc_cookie_max_age = 300

-- The bytes of a value that http.SetCookie writes; the others it drops.
abbrev pub is_cookie_byte : ℕ → Bool
is_cookie_byte c = leb 32 c && leb c 126 && not (c == 34 || c == 59 || c == 92)

-- What comes back of a value that http.SetCookie has written: the quotes that it puts around a value
-- with a space or a comma are taken off by the parser of the request.
unfoldable pub sanitized : Str → Str
sanitized [] = []
sanitized (c ∷ s) = let rest = sanitized s in if is_cookie_byte c then c ∷ rest else rest

-- `setOIDCCookie`
abbrev pub set_oidc_cookie : Str → Str → Str → Bool → SetCookie
set_oidc_cookie name value path secure = record {
  name = name;
  value = sanitized value;
  path = path;
  life = max_age oidc_cookie_max_age;
  http_only = true;
  secure = secure;
}

-- `clearOIDCCookie`
abbrev pub clear_oidc_cookie : Str → Str → Bool → SetCookie
clear_oidc_cookie name path secure = record {
  name = name;
  value = [];
  path = path;
  life = delete;
  http_only = true;
  secure = secure;
}
