-- ===== src/Redirect.antt =====
-- auth.go: the redirect check, the state cookie that carries a redirect, and where a finished login
-- sends the browser; oidc.go: the state parameter. net/url is a parameter.
pub mod Safe
use go_vai_oidc.Prelude.{
  ℕ, ◌+◌, ◌/◌, ◌%◌, Bool, true, false, Option, none, some, List, [], ◌∷◌, ◌++◌, ltb, if◌then◌else◌,
}
use go_vai_oidc.Prelude.Text.{Str, codes, str_eq, is_empty, has_prefix, contains, contains_any, cut}
use go_vai_oidc.Config.{Config}

-- `isValidRedirect`
unfoldable pub is_valid_redirect : Str → Bool
is_valid_redirect redirect =
    if is_empty redirect
    then false
    else if has_prefix redirect (codes "/")
    then (if has_prefix redirect (codes "//")
        then false
        else if contains redirect (codes "://")
        then false
        else if contains_any redirect (codes "\\")
        then false
        else true)
    else false

abbrev hex_digit : ℕ → ℕ
hex_digit n = if ltb n 10 then 48 + n else 87 + n

-- encoding/hex
unfoldable pub hex : Str → Str
hex [] = []
hex (b ∷ bs) = hex_digit (b / 16) ∷ hex_digit (b % 16) ∷ hex bs

-- `generateState` of oidc.go, over the bytes that crypto/rand answers.
unfoldable pub generate_state : Option Str → Option Str
unfolding hex
generate_state none = none
generate_state (some bytes) = some (hex bytes)

-- The value that `handleLogin` stores: the state, and the redirect if there is one.
unfoldable pub state_cookie_value : Str → Str → Str
state_cookie_value state redirect = if is_empty redirect then state else state ++ b'|' ∷ redirect

-- `parseStateCookie`
unfoldable pub parse_state_cookie : Str → Str × Str
unfolding cut
parse_state_cookie value = elim (cut b'|' value) [
  | none ↦ (value, [])
  | some (state, redirect) ↦ (state, redirect)
]

-- net/url: the scheme and the host of a URL that parses, and a URL that parses with query parameters
-- set.
pub record Urls : Type 0 where
  pub origin : Str → Option (Str × Str)
  pub set_query : Str → List (Str × Str) → Option Str

-- `appendQueryParam`
unfoldable pub append_query_param : Urls → Str → Str → Str → Str
append_query_param urls url key value = elim (urls.set_query url ((key, value) ∷ [])) [
  | none ↦ url
  | some u ↦ u
]

-- `postLoginTarget`
unfoldable pub post_login_target : Config → Str → Str
post_login_target cfg stored = if is_empty stored then cfg.post_login_redirect else stored

abbrev pub absolute : Option (Str × Str) → Str → Str
absolute none target = []
absolute (some (scheme, host)) target =
    if is_empty scheme
    then []
    else if is_empty host
    then []
    else scheme ++ (codes "://" ++ (host ++ target))

-- `consumerReturnTo`
unfoldable pub consumer_return_to : Urls → Config → Str → Str
consumer_return_to urls cfg target =
    if is_empty target
    then []
    else if str_eq target (codes "/")
    then []
    else if is_valid_redirect target
    then absolute (urls.origin cfg.callback_url) target
    else []

abbrev first_nonempty : Str → Str → Str
first_nonempty [] other = other
first_nonempty (c ∷ s) other = c ∷ s

abbrev mapped_return_to : Urls → Config → Option (Str → Str) → Str → Str
mapped_return_to urls cfg none target = []
mapped_return_to urls cfg (some path) target =
    if is_valid_redirect (path target) then consumer_return_to urls cfg (path target) else []

-- `landingConsumerReturnTo`
unfoldable pub landing_consumer_return_to : Urls → Config → Str → Str
unfolding consumer_return_to
landing_consumer_return_to urls cfg target =
    first_nonempty (mapped_return_to urls cfg cfg.landing_return_path target)
      (consumer_return_to urls cfg target)
