-- ===== src/StepUp.antt =====
-- stepup.go: recent authentication. Times are nanoseconds since the epoch, `none` the zero time;
-- JSON numbers are scaled by 10^9, so that a fraction of a second keeps its place.
pub mod Ages
pub mod Recent
use go_vai_oidc.Prelude.{
  ℕ, ◌*◌, ◌+◌, ◌^◌, ◌-◌, Bool, true, false, ◌||◌, Option, none, some, List, [], ◌∷◌, ◌++◌, ltb, leb,
  if◌then◌else◌, Result, ok, err, any, length, not,
}
use go_vai_oidc.Prelude.Int.{ℤ, pos, negsuc, ◌+ℤ◌, ◌-ℤ◌, ltb_ℤ, leb_ℤ}
use go_vai_oidc.Prelude.Text.{Str, codes, is_empty, cut}
use go_vai_oidc.Prelude.Decimal.{itoa, format_int, parse_int, is_digit}
use go_vai_oidc.Errors.{Error, just, error_is, duplicate_cookie, invalid_return_path}
use go_vai_oidc.Config.{Config, flow_cookie_name}
use go_vai_oidc.Cookie.{Request, unique_cookie}
use go_vai_oidc.User.{User}
use go_vai_oidc.Session.Payload.{second, unix, from_unix}
use go_vai_oidc.Redirect.{Urls, append_query_param, is_valid_redirect}

abbrev pub auth_time_skew : ℤ
auth_time_skew = pos (30 * second)

abbrev is_recent : ℤ → ℤ → ℤ → Bool
is_recent at window now =
    if leb_ℤ window (pos 0)
    then false
    else if ltb_ℤ (now -ℤ at) (pos 0 -ℤ auth_time_skew)
    then false
    else leb_ℤ (now -ℤ at) window

-- `RecentlyAuthenticated`
unfoldable pub recently_authenticated : Option User → ℤ → ℤ → Bool
recently_authenticated none window now = false
recently_authenticated (some u) window now = elim u.auth_time [
  | none ↦ false
  | some at ↦ is_recent at window now
]

-- `StepUpLoginURL`
unfoldable pub step_up_login_url : Urls → Config → Str → Result Error Str
step_up_login_url urls cfg return_to =
    let target = append_query_param urls cfg.login_path (codes "max_age") (codes "0") in
    if is_empty return_to
    then ok target
    else if is_valid_redirect return_to
    then ok (append_query_param urls target (codes "redirect") return_to)
    else err (just invalid_return_path)

abbrev pub max_age_max_seconds : ℕ
max_age_max_seconds = 2147483647

abbrev pub max_age_max_digits : ℕ
max_age_max_digits = 10

-- The results (0, false, true), (0, true, false) and (v, true, true) of `parseMaxAge`.
pub data MaxAge : Type 0 where
  absent : MaxAge
  malformed : MaxAge
  seconds : ℕ → MaxAge

abbrev within_max : Option ℤ → MaxAge
within_max none = malformed
within_max (some (negsuc n)) = malformed
within_max (some (pos n)) = if ltb max_age_max_seconds n then malformed else seconds n

-- `parseMaxAge`
unfoldable pub parse_max_age : Str → MaxAge
parse_max_age raw =
    if is_empty raw
    then absent
    else if ltb max_age_max_digits (length raw)
    then malformed
    else if any (λ c. not (is_digit c)) raw
    then malformed
    else within_max (parse_int raw)

-- `maxAgeCookieValue`
unfoldable pub max_age_cookie_value : ℕ → ℤ → Str
max_age_cookie_value max_age started_at = itoa max_age ++ b'.' ∷ format_int (unix started_at)

-- The seconds from the year 1 to 1970: a time.Time counts its seconds from the year 1, in an int64.
abbrev pub seconds_to_epoch : ℕ
seconds_to_epoch = 62135596800

-- time.Unix of an int64 from 1970 on: a sum behind the int64 wraps around.
abbrev wrapped_start : ℤ → ℤ
wrapped_start (negsuc n) = negsuc n
wrapped_start (pos n) = if ltb (n + seconds_to_epoch) (2 ^ 63) then pos n else pos n -ℤ pos (2 ^ 64)

abbrev positive_start : ℕ → Option ℤ → Option (ℕ × ℤ)
positive_start max_age none = none
positive_start max_age (some start) =
    if leb_ℤ start (pos 0) then none else some (max_age, from_unix (wrapped_start start))

abbrev read_parts : Option (Str × Str) → Option (ℕ × ℤ)
read_parts none = none
read_parts (some (age_raw, start_raw)) = elim (parse_max_age age_raw) [
  | absent ↦ none
  | malformed ↦ none
  | seconds max_age ↦ positive_start max_age (parse_int start_raw)
]

-- `parseMaxAgeCookie`: the requested age and the start, or `none` for ok = false.
unfoldable pub parse_max_age_cookie : Str → Option (ℕ × ℤ)
parse_max_age_cookie v = read_parts (cut b'.' v)

pub data Reason : Type 0 where
  auth_time_missing auth_time_stale max_age_cookie_malformed max_age_cookie_duplicate : Reason

-- `checkAuthTime`: `none` is the empty reason.
unfoldable pub check_auth_time : Option ℤ → ℕ → ℤ → Option Reason
check_auth_time none max_age started_at = some auth_time_missing
check_auth_time (some at) max_age started_at =
    let earliest = started_at -ℤ pos (max_age * second) -ℤ auth_time_skew in
    if ltb_ℤ at earliest then some auth_time_stale else none

abbrev cookie_verdict : Option ℤ → Option (ℕ × ℤ) → Option Reason
cookie_verdict auth_time none = some max_age_cookie_malformed
cookie_verdict auth_time (some (max_age, started_at)) = check_auth_time auth_time max_age started_at

abbrev pub max_age_verdict : Option ℤ → Result Error Str → Option Reason
max_age_verdict auth_time (err e) =
    if error_is e duplicate_cookie then some max_age_cookie_duplicate else none
max_age_verdict auth_time (ok value) =
    if is_empty value then none else cookie_verdict auth_time (parse_max_age_cookie value)

-- `verifyRequestedMaxAge`, with the reason that it logs in place of false.
unfoldable pub verify_requested_max_age : Config → Request → Option ℤ → Option Reason
verify_requested_max_age cfg r auth_time =
    max_age_verdict auth_time (unique_cookie r (flow_cookie_name cfg (codes "vai_oidc_max_age")))

-- `mergeRefreshedAuthTime`, in unix seconds.
unfoldable pub merge_refreshed_auth_time : ℤ → ℤ → ℤ
merge_refreshed_auth_time stored refreshed =
    if leb_ℤ refreshed (pos 0)
    then stored
    else if leb_ℤ stored (pos 0) || ltb_ℤ refreshed stored
    then refreshed
    else stored
