-- ===== src/Revalidate.antt =====
-- revalidate.go: the revalidation floor. What the flight group answers is a parameter: `fly_grant`
-- and `fly_resolve` take the flight's key and the caller's own work, and give the shared outcome.
-- A revalShared that holds a grant's answers is `GrantShared`, one of a resolver retry
-- `ResolveShared`; an error is its grantErr.
mod Timing
pub mod Outcomes
pub mod Backoff
pub mod Ends
use go_vai_oidc.Prelude.{
  ℕ, suc, ◌+◌, ◌*◌, ◌/◌, ◌-◌, Bool, true, false, ◌&&◌, ◌||◌, not, Option, none, some, List, [], ◌∷◌,
  ◌++◌, if◌then◌else◌, Result, ok, err, ◌>>=◌,
}
use go_vai_oidc.Prelude.Int.{ℤ, pos, negsuc, ◌+ℤ◌, ◌-ℤ◌, leb_ℤ, ltb_ℤ, sub_ℕ, div_ℤ}
use go_vai_oidc.Prelude.Text.{Str, codes, str_eq, is_empty}
use go_vai_oidc.Prelude.Decimal.{format_int}
use go_vai_oidc.Errors.{Error, just, session_revoked, as_retrieve}
use go_vai_oidc.Config.{Config}
use go_vai_oidc.Cookie.{SetCookie}
use go_vai_oidc.User.{User}
use go_vai_oidc.StepUp.{merge_refreshed_auth_time}
use go_vai_oidc.Idp.{Idp, Token, IdToken, forced_refresh, verify_id_token}
use go_vai_oidc.Auth.{Auth}
use go_vai_oidc.Redirect.{hex}
use go_vai_oidc.Reresolve.{ReresolveOutcome, applied, soft, ended, reresolve, apply_resolution}
use go_vai_oidc.Session.Payload.{SessionPayload, second, unix, from_unix, unix_or_zero}
use go_vai_oidc.Session.Store.{set_session_cookie, clear_session_cookie}
unfoldable pub use go_vai_oidc.Revalidate.Timing.{
  revalidate_transport_backoff, half, transport_backoff, whole_seconds, validation_anchor,
  resolve_retry_due, floor_due,
}

-- `isSessionRevoked`
unfoldable pub is_session_revoked : Error → Bool
is_session_revoked e = elim (as_retrieve e) [
  | none ↦ false
  | some code ↦ str_eq code (codes "invalid_grant")
]

-- The payload to serve the request with, or the error; and the cookies that were written.
pub record Served : Type 0 where
  pub result : Result Error SessionPayload
  pub cookies : List SetCookie

abbrev pub written : Result Error (List SetCookie) → List SetCookie
written (ok cs) = cs
written (err e) = []

-- `writeSession`: a failure to persist is not fatal and writes nothing.
unfoldable pub write_session : Auth → Option Str → SessionPayload → List SetCookie
write_session a rand p = written (set_session_cookie a.crypto a.session_key rand a.cfg p)

abbrev pub serve : Auth → Option Str → SessionPayload → Served
serve a rand p = record { result = ok p; cookies = write_session a rand p }

abbrev pub sign_out : Auth → Served
sign_out a = record { result = err (just session_revoked); cookies = clear_session_cookie a.cfg }

abbrev pub unchanged : SessionPayload → Served
unchanged p = record { result = ok p; cookies = [] }

abbrev pub GrantShared : Type 0
GrantShared = Result Error (Token × ℤ × Option ReresolveOutcome)

abbrev pub ResolveShared : Type 0
ResolveShared = Result Error ReresolveOutcome

abbrev auth_time_of : SessionPayload → Result Error User → ℤ
auth_time_of p (err e) = pos 0
auth_time_of p (ok u) = if str_eq u.sub p.sub then unix_or_zero u.auth_time else pos 0

abbrev fresh_auth_time :
    Auth → SessionPayload → Option (Str → Result Error IdToken) → Option Str → ℤ
fresh_auth_time a p none raw = pos 0
fresh_auth_time a p (some verify) none = pos 0
fresh_auth_time a p (some verify) (some raw) =
    if is_empty raw
    then pos 0
    else auth_time_of p (verify_id_token a.idp a.cfg.extra_claims verify raw)

-- `refreshedAuthTime`
unfoldable pub refreshed_auth_time : Auth → SessionPayload → Token → ℤ
refreshed_auth_time a p fresh = fresh_auth_time a p a.idp.verifier fresh.id_token

-- The work of one grant flight.
unfoldable pub grant_work : Auth → SessionPayload → GrantShared
grant_work a leader = do
  fresh ← forced_refresh a.idp leader.refresh_token
  ok (
    fresh,
    refreshed_auth_time a leader fresh,
    if a.cfg.reresolve_on_revalidate then some (reresolve a leader (some fresh)) else none,
  )

-- `flightKey`
unfoldable pub flight_key : Auth → Str → List Str → Str
flight_key a kind parts = kind ++ b':' ∷ hex (a.sha256 (kind ++ joined parts))
  where
    joined : List Str → Str
    joined [] = []
    joined (p ∷ ps) = (0 ∷ p) ++ joined ps

abbrev grant_key : Auth → SessionPayload → Str
grant_key a p =
    flight_key a (codes "grant")
      (p.sub ∷ p.refresh_token ∷ format_int p.last_validated ∷ format_int p.exp ∷ [])

abbrev resolve_key : Auth → SessionPayload → Str
resolve_key a p =
    flight_key a (codes "resolve")
      (p.sub ∷ p.refresh_token ∷ format_int p.last_validated ∷ format_int p.resolve_retry_at ∷ [])

-- The payload with the grant's tokens and the merged time of authentication.
unfoldable pub refreshed : SessionPayload → Token → ℤ → SessionPayload
refreshed p fresh aut = record p {
  access_token = fresh.access_token;
  access_token_exp = unix fresh.expiry;
  refresh_token = if is_empty fresh.refresh_token then p.refresh_token else fresh.refresh_token;
  aut = merge_refreshed_auth_time p.aut aut;
}

-- A completed revalidation: stamped at `now`, with a full lifetime from there.
unfoldable pub stamped : Config → ℤ → SessionPayload → SessionPayload
stamped cfg now p = record p {
  resolve_retry_at = pos 0;
  last_validated = unix now;
  exp = unix (now +ℤ cfg.session_ttl);
}

-- A grant that succeeded while the resolver failed: the life of the session does not grow.
unfoldable pub retry_later : Config → ℤ → SessionPayload → SessionPayload
retry_later cfg now p = record p {
  last_validated = unix now;
  resolve_retry_at = unix (now +ℤ transport_backoff cfg);
}

-- `persistBackoff`, the payload that it writes.
unfoldable pub backed_off : Config → ℤ → SessionPayload → SessionPayload
backed_off cfg now p = record p {
  last_validated = unix (now +ℤ (transport_backoff cfg -ℤ cfg.revalidate_interval));
}

-- `revalidateAtIdP` behind the flight.
unfoldable pub apply_grant : Auth → Option Str → ℤ → SessionPayload → GrantShared → Served
apply_grant a rand now p (err e) =
    if is_session_revoked e then sign_out a else serve a rand (backed_off a.cfg now p)
apply_grant a rand now p (ok (fresh, aut, none)) =
    serve a rand (stamped a.cfg now (refreshed p fresh aut))
apply_grant a rand now p (ok (fresh, aut, some ended)) = sign_out a
apply_grant a rand now p (ok (fresh, aut, some soft)) =
    serve a rand (retry_later a.cfg now (refreshed p fresh aut))
apply_grant a rand now p (ok (fresh, aut, some (applied u))) =
    serve a rand (stamped a.cfg now (apply_resolution (refreshed p fresh aut) u))

-- The life that the last check at the provider allowed, if it is longer.
unfoldable pub extended : Config → SessionPayload → SessionPayload
extended cfg p =
    let allowed = p.last_validated +ℤ whole_seconds cfg.session_ttl in
    if ltb_ℤ p.exp allowed then record p { exp = allowed } else p

-- `retryResolution` behind the flight.
unfoldable pub apply_retry : Auth → Option Str → ℤ → SessionPayload → ResolveShared → Served
apply_retry a rand now p (err e) = unchanged p
apply_retry a rand now p (ok ended) = sign_out a
apply_retry a rand now p (ok soft) =
    serve a rand (record p { resolve_retry_at = unix (now +ℤ transport_backoff a.cfg) })
apply_retry a rand now p (ok (applied u)) =
    serve a rand (extended a.cfg (record (apply_resolution p u) { resolve_retry_at = pos 0 }))

pub record Flights : Type 0 where
  pub fly_grant : Str → GrantShared → GrantShared
  pub fly_resolve : Str → ResolveShared → ResolveShared

-- `revalidateAtIdP`
unfoldable pub revalidate_at_idp : Auth → Flights → Option Str → ℤ → SessionPayload → Served
revalidate_at_idp a flights rand now p =
    if is_empty p.refresh_token
    then unchanged p
    else apply_grant a rand now p (flights.fly_grant (grant_key a p) (grant_work a p))

-- `retryResolution`
unfoldable pub retry_resolution : Auth → Flights → Option Str → ℤ → SessionPayload → Served
retry_resolution a flights rand now p =
    apply_retry a rand now p (flights.fly_resolve (resolve_key a p) (ok (reresolve a p none)))

-- `maybeRevalidate`, for a payload that is not nil.
unfoldable pub maybe_revalidate : Auth → Flights → Option Str → ℤ → SessionPayload → Served
maybe_revalidate a flights rand now p =
    if leb_ℤ a.cfg.revalidate_interval (pos 0)
    then unchanged p
    else if floor_due a.cfg p now
    then revalidate_at_idp a flights rand now p
    else if resolve_retry_due a.cfg p now
    then retry_resolution a flights rand now p
    else unchanged p
