-- ===== src/Scenarios/Reconciling.antt =====
-- Silent reconciliations and revalidations, on concrete input.
use go_vai_oidc.Prelude.{
  ◌≡◌, ◌≢◌, refl, Option, none, some, List, [], ◌∷◌, ◌++◌, Result, ok, err, ◌⊎◌, true, false, arith,
  Bool, ℕ, ◌<◌, ◌≤◌, ◌↔◌, ◌+◌,
}
use go_vai_oidc.Prelude.Int.{pos, ◌+ℤ◌, ◌-ℤ◌}
use go_vai_oidc.Prelude.Text.{Str, codes, str_eq, is_empty}
use go_vai_oidc.Errors.{retrieve}
use go_vai_oidc.Cookie.{Request, SetCookie}
use go_vai_oidc.Auth.{Auth}
use go_vai_oidc.Session.Payload.{SessionPayload, unix}
use go_vai_oidc.Revalidate.{
  Flights, maybe_revalidate, floor_due, backed_off, retry_later, transport_backoff,
  revalidate_transport_backoff,
}
use go_vai_oidc.Revalidate.Outcomes.{Keeps, Visit, visits, visits-Keeps}
use go_vai_oidc.Revalidate.Ends.{IsSignedOut, IsEnded, maybe_revalidate-IsEnded_iff}
use go_vai_oidc.Flight.{
  Call, running, done, Event, arrive, land, panic, Arrival, leads, joins, enter, step, Calls,
}
use go_vai_oidc.Flight.Single.{run, led, single_flight}
use go_vai_oidc.Flow.{verdict, signed_out, switched, failed, no_session}
use go_vai_oidc.Sync.{handle_sync_callback}
use go_vai_oidc.Sync.Verdicts.{SignedOut, Switched, signed_out_iff, switched_sound}
use go_vai_oidc.Sync.Cookies.{Handled, handle_sync_callback-Handled}
use go_vai_oidc.Scenarios.World.{
  deployment, session, noon, five_past, twelve_bytes, request, session_cookie, flow_cookies,
}

abbrev here : Auth
here = deployment (codes "ada") session

-- The browser of somebody else.
abbrev elsewhere : Auth
elsewhere = deployment (codes "bob") session

abbrev answered : Request
answered =
    request (session_cookie ++ flow_cookies)
      ((codes "state", codes "xyz") ∷ (codes "code", codes "c") ∷ [])

abbrev asked_to_log_in : Request
asked_to_log_in =
    request (session_cookie ++ flow_cookies) ((codes "error", codes "login_required") ∷ [])

signed_out_iff_example :
    ((handle_sync_callback here noon none asked_to_log_in).answer ≡ verdict signed_out)
    ↔ SignedOut here noon asked_to_log_in
signed_out_iff_example = signed_out_iff here noon asked_to_log_in none

switched_sound_example : Switched elsewhere noon answered
unfolding handle_sync_callback go_vai_oidc.Flow.flow_cookie go_vai_oidc.Cookie.unique_cookie
    go_vai_oidc.Cookie.cookies_named str_eq codes go_vai_oidc.Config.flow_cookie_name
    go_vai_oidc.Flow.session_of go_vai_oidc.Session.Store.read_session_cookie
    go_vai_oidc.Cookie.cookie go_vai_oidc.Prelude.Text.cut_prefix
    go_vai_oidc.Session.Crypto.decrypt_session unix go_vai_oidc.Redirect.parse_state_cookie
    go_vai_oidc.Idp.exchange go_vai_oidc.Idp.extract_user
    go_vai_oidc.Session.Payload.is_grant_minted
switched_sound_example = switched_sound elsewhere noon answered none refl

handle_sync_callback-Handled_example :
    Handled here noon
      (some twelve_bytes)
      answered
      (handle_sync_callback here noon (some twelve_bytes) answered)
handle_sync_callback-Handled_example =
    handle_sync_callback-Handled here noon (some twelve_bytes) answered

abbrev without_session : Request
without_session =
    request flow_cookies ((codes "state", codes "xyz") ∷ (codes "code", codes "c") ∷ [])

abbrev revoking : Flights
revoking = record {
  fly_grant = λ k r. err (retrieve (codes "invalid_grant") ∷ []);
  fly_resolve = λ k r. r;
}

abbrev alone : Flights
alone = record { fly_grant = λ k r. r; fly_resolve = λ k r. r }

maybe_revalidate-IsEnded_iff_example :
    IsSignedOut (maybe_revalidate here revoking none five_past session)
    ↔ IsEnded here none five_past session revoking
maybe_revalidate-IsEnded_iff_example =
    maybe_revalidate-IsEnded_iff here none five_past session revoking

abbrev twice : List Visit
twice =
    record { flights = alone; rand = none; now = noon }
    ∷ record { flights = alone; rand = none; now = five_past }
    ∷ []

abbrev afterwards : SessionPayload
afterwards = record session { exp = pos 1700003900; last_validated = pos 1700000300 }

visits-Keeps_example : Keeps session afterwards
unfolding visits maybe_revalidate floor_due ◌-ℤ◌ go_vai_oidc.Session.Payload.from_unix
    go_vai_oidc.Revalidate.resolve_retry_due go_vai_oidc.Revalidate.revalidate_at_idp codes
    go_vai_oidc.Revalidate.apply_grant go_vai_oidc.Revalidate.grant_work
    go_vai_oidc.Idp.forced_refresh go_vai_oidc.Revalidate.stamped go_vai_oidc.Revalidate.refreshed
    unix ◌+ℤ◌ go_vai_oidc.StepUp.merge_refreshed_auth_time
    go_vai_oidc.Revalidate.refreshed_auth_time go_vai_oidc.Idp.verify_id_token str_eq
    go_vai_oidc.Session.Payload.unix_or_zero go_vai_oidc.Idp.extract_user
visits-Keeps_example = visits-Keeps here session twice refl

abbrev flying : Calls ℕ
flying = (codes "k", running) ∷ (codes "other", running) ∷ []

not_this : codes "other" ≢ codes "k"
unfolding codes
not_this e = cc

abbrev before_landing : List (Event ℕ)
before_landing = arrive noon (codes "k") ∷ panic noon (codes "other") ∷ []

single_flight_example :
    let es = before_landing ++ land noon (codes "k") 7 ∷ arrive noon (codes "k") ∷ [] in
    (led (codes "k") es flying ≡ 0)
    × ((enter (pos 1700000005000000000) (codes "k") (run es flying)).1 ≡ joins 7)
unfolding go_vai_oidc.Flight.find codes ◌+ℤ◌ str_eq
single_flight_example =
    single_flight (codes "k") flying before_landing (arrive noon (codes "k") ∷ []) noon
      (pos 1700000005000000000) 7 refl (tt, (not_this, tt)) (omega arith, tt) (omega arith)
