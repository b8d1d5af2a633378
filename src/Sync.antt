-- ===== src/Sync.antt =====
-- sessionsync.go: the silent reconciliation of a session with the browser's identity.
pub mod Verdicts
pub mod Cookies
use go_vai_oidc.Prelude.{
  ℕ, Bool, true, false, ◌&&◌, ◌||◌, not, Option, none, some, List, [], ◌∷◌, ◌++◌, if◌then◌else◌,
  Result, ok, err, ◌>>=◌,
}
use go_vai_oidc.Prelude.Int.{ℤ, ◌+ℤ◌}
use go_vai_oidc.Prelude.Text.{Str, codes, str_eq, is_empty}
use go_vai_oidc.Errors.{Error, error_is, duplicate_cookie}
use go_vai_oidc.Config.{Config}
use go_vai_oidc.Cookie.{SetCookie, Request}
use go_vai_oidc.User.{User}
use go_vai_oidc.Idp.{auth_code_url, Idp, Token, IdToken, exchange, extract_user}
use go_vai_oidc.Auth.{Auth}
use go_vai_oidc.Redirect.{generate_state, parse_state_cookie}
use go_vai_oidc.Session.Payload.{SessionPayload, unix, is_grant_minted}
use go_vai_oidc.Session.Store.{clear_session_cookie}
use go_vai_oidc.Revalidate.{write_session}
use go_vai_oidc.Flow.{
  SyncResult, unchanged, switched, signed_out, no_session, disabled, failed, not_applicable, Answer,
  redirect, verdict, Response, cookie_oidc_state, cookie_pkce_verifier, cookie_oidc_sync,
  set_flow_cookie, clear_flow_cookie, flow_cookie, generate_pkce, session_of,
}

abbrev start_sync : Auth → Option Str → Option (Str × Str) → Response
start_sync a none pkce = record { cookies = []; answer = verdict failed }
start_sync a (some state) none = record { cookies = []; answer = verdict failed }
start_sync a (some state) (some (verifier, challenge)) = record {
  cookies =
      set_flow_cookie a.cfg cookie_oidc_state state
      ∷ set_flow_cookie a.cfg cookie_pkce_verifier verifier
      ∷ set_flow_cookie a.cfg cookie_oidc_sync (codes "1")
      ∷ [];
  answer = redirect (auth_code_url a.idp state challenge ((codes "prompt", codes "none") ∷ []));
}

abbrev sync_of : Auth → Option Str → Option Str → Result Error SessionPayload → Response
sync_of a state_bytes pkce_bytes (err e) = record { cookies = []; answer = verdict no_session }
sync_of a state_bytes pkce_bytes (ok p) =
    start_sync a (generate_state state_bytes) (generate_pkce a pkce_bytes)

-- `handleSessionSync`
unfoldable pub handle_session_sync : Auth → ℤ → Option Str → Option Str → Request → Response
handle_session_sync a now state_bytes pkce_bytes r =
    if a.cfg.session_sync_enabled
    then sync_of a state_bytes pkce_bytes (session_of a now r)
    else record { cookies = []; answer = verdict disabled }

-- `sameIdentity`, for a payload and a user that are not nil.
unfoldable pub same_identity : SessionPayload → User → Bool
same_identity p browser =
    if str_eq p.sub browser.sub
    then (if not (is_empty p.sid) && not (is_empty browser.session_id)
        then str_eq p.sid browser.session_id
        else true)
    else false

-- `syncSameIdentity`
unfoldable pub sync_same_identity : SessionPayload → User → Bool
unfolding same_identity
sync_same_identity p browser =
    if is_grant_minted p then str_eq p.sub browser.sub else same_identity p browser

-- `isSyncNoSessionError`
unfoldable pub is_sync_no_session_error : Str → Bool
is_sync_no_session_error code =
    str_eq code (codes "login_required")
    || str_eq code (codes "interaction_required")
    || str_eq code (codes "consent_required")
    || str_eq code (codes "account_selection_required")

abbrev with_tokens : Bool → Token → SessionPayload → SessionPayload
with_tokens false t p = p
with_tokens true t p = record p {
  access_token = t.access_token;
  access_token_exp = unix t.expiry;
  refresh_token = if is_empty t.refresh_token then p.refresh_token else t.refresh_token;
}

-- The payload after a round trip that found the same person: stamped, and for a session that is not
-- grant-minted with the exchange's tokens and, if it had none, the browser's sid.
unfoldable pub restamped : Config → ℤ → SessionPayload → Token → User → SessionPayload
restamped cfg now p t browser =
    let grant = is_grant_minted p in
    let q = record p { last_validated = unix now; exp = unix (now +ℤ cfg.session_ttl) } in
    let q' = with_tokens (cfg.retain_tokens && not grant) t q in
    if is_empty q'.sid && not grant then record q' { sid = browser.session_id } else q'

-- What a callback concludes about the session, in the order of the code's tests.
pub data Conclusion : Type 0 where
  no_answer : Conclusion
  nothing_held : Conclusion
  grant_keeps : Conclusion
  signed_off : Conclusion
  other_person : Conclusion
  same_person : SessionPayload → Conclusion

abbrev judge_identity : Auth → ℤ → SessionPayload → Token → User → Conclusion
judge_identity a now p t browser =
    if is_empty browser.sub
    then no_answer
    else if sync_same_identity p browser
    then same_person (restamped a.cfg now p t browser)
    else other_person

abbrev judge_exchange :
    Auth → ℤ → SessionPayload → Result Error (Token × Str × IdToken) → Conclusion
judge_exchange a now p (err e) = no_answer
judge_exchange a now p (ok (t, raw, id)) =
    judge_identity a now p t (extract_user a.idp id a.cfg.extra_claims)

abbrev judge_code : Auth → ℤ → Request → SessionPayload → Str → Conclusion
judge_code a now r p verifier =
    if is_empty (r.query (codes "code"))
    then no_answer
    else judge_exchange a now p (exchange a.idp (r.query (codes "code")) verifier)

abbrev state_matches : Request → Str → Bool
state_matches r stored =
    not (is_empty (r.query (codes "state")))
    && str_eq (r.query (codes "state")) (parse_state_cookie stored).0

abbrev judge_error : SessionPayload → Str → Conclusion
judge_error p code =
    if is_sync_no_session_error code
    then (if is_grant_minted p then grant_keeps else signed_off)
    else no_answer

abbrev judge_session : Auth → ℤ → Request → Str → Str → Result Error SessionPayload → Conclusion
judge_session a now r state verifier (err e) = nothing_held
judge_session a now r state verifier (ok p) =
    if is_empty (r.query (codes "error"))
    then (if state_matches r state then judge_code a now r p verifier else no_answer)
    else judge_error p (r.query (codes "error"))

abbrev judge : Auth → ℤ → Request → Result Error Str → Result Error Str → Conclusion
judge a now r (err e) verifier = no_answer
judge a now r (ok state) (err e) = no_answer
judge a now r (ok state) (ok verifier) = judge_session a now r state verifier (session_of a now r)

abbrev pub render : Auth → Option Str → Conclusion → List SetCookie × SyncResult
render a rand no_answer = ([], failed)
render a rand nothing_held = ([], no_session)
render a rand grant_keeps = ([], not_applicable)
render a rand signed_off = (clear_session_cookie a.cfg, signed_out)
render a rand other_person = (clear_session_cookie a.cfg, switched)
render a rand (same_person q) = (write_session a rand q, unchanged)

abbrev pub sync_clears : Auth → List SetCookie
sync_clears a =
    clear_flow_cookie a.cfg cookie_oidc_state
    ∷ clear_flow_cookie a.cfg cookie_pkce_verifier
    ∷ clear_flow_cookie a.cfg cookie_oidc_sync
    ∷ []

unfoldable pub conclusion : Auth → ℤ → Request → Conclusion
unfolding is_sync_no_session_error sync_same_identity
conclusion a now r =
    judge a now r (flow_cookie a.cfg r cookie_oidc_state) (flow_cookie a.cfg r cookie_pkce_verifier)

-- `handleSyncCallback`
unfoldable pub handle_sync_callback : Auth → ℤ → Option Str → Request → Response
unfolding conclusion
handle_sync_callback a now rand r =
    let (cookies, result) = render a rand (conclusion a now r) in
    record { cookies = sync_clears a ++ cookies; answer = verdict result }
