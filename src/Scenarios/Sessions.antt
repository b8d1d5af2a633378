-- ===== src/Scenarios/Sessions.antt =====
-- The session cookie and the session of a request, on concrete input.
use go_vai_oidc.Prelude.{
  ◌≡◌, ◌≢◌, refl, Option, none, some, List, [], ◌∷◌, ◌++◌, Result, ok, err, ◌⊎◌, true, arith, Bool,
  ℕ, ◌<◌, ◌≤◌, length, concat,
}
use go_vai_oidc.Prelude.Int.{ℤ, pos, ◌+ℤ◌}
use go_vai_oidc.Prelude.Text.{Str, codes, str_eq}
use go_vai_oidc.Errors.{just, session_revoked, Error, retrieve}
use go_vai_oidc.Cookie.{Request, SetCookie, write_session_cookie, cookie}
use go_vai_oidc.Cookie.Browser.{Jar, receive}
use go_vai_oidc.User.{User}
use go_vai_oidc.Auth.{Auth}
use go_vai_oidc.Session.Payload.{SessionPayload, unix, from_user, to_user, time_or_zero}
use go_vai_oidc.Session.Crypto.{encrypt_session, decrypt_session}
use go_vai_oidc.Session.Store.{set_session_cookie, lay_out, read_session_cookie}
use go_vai_oidc.Session.RoundTrip.{read-set_session_cookie}
use go_vai_oidc.Revalidate.{Flights, maybe_revalidate}
use go_vai_oidc.Flow.{session_of}
use go_vai_oidc.Handlers.{
  Context, passed, failed_with, current_session, update_session, update_session_if, session_user,
  access_token, optional_session, write_update,
}
use go_vai_oidc.Handlers.Surfaces.{
  Admits, Refuses, surfaces_agree, optional_session-no_resurrection,
}
use go_vai_oidc.Handlers.Updates.{IsUpdated, update_session-read}
use go_vai_oidc.Scenarios.World.{
  config, codec, codec-IsFaithful, deployment, session, ada, noon, five_past, twelve_bytes, sealed,
  request, session_cookie, key,
}

abbrev here : Auth
here = deployment (codes "ada") session

abbrev stale : Jar
stale =
    (codes "s", codes "chunked:2") ∷ (codes "s_1", codes "old") ∷ (codes "s_2", codes "older") ∷ []

abbrev one_cookie : List SetCookie
one_cookie = write_session_cookie (codes "s") sealed (codes "/") (pos 1700003600) true ∷ []

read-set_session_cookie_example :
    read_session_cookie
      (codec session)
      key
      five_past
      (codes "s")
      (receive (unix five_past) one_cookie stale)
    ≡ ok session
unfolding codes unix set_session_cookie encrypt_session lay_out
read-set_session_cookie_example =
    read-set_session_cookie (codec session) key twelve_bytes config session five_past stale
      {cs = one_cookie} (codec-IsFaithful session) refl (omega arith) refl

heads : {c d : ℕ} {s t : Str} → c ∷ s ≡ d ∷ t → c ≡ d
heads e = cc

not_theirs : codes "other" ≢ codes "s"
unfolding codes
not_theirs e = absurd (omega (arith, heads e))

abbrev with_cookie : Request
with_cookie = request session_cookie []

abbrev no_context : Context
no_context = record { user = none; session = none }

abbrev alone : Flights
alone = record { fly_grant = λ k r. r; fly_resolve = λ k r. r }

surfaces_agree_example :
    (cs : List SetCookie) × (((p : SessionPayload) × Admits here alone none five_past no_context
          with_cookie cs p)
      ⊎ ((e : Error) × Refuses here alone none five_past no_context with_cookie cs e))
surfaces_agree_example = surfaces_agree here alone none five_past no_context with_cookie

abbrev renamed : User → User
renamed u = record u { name = codes "Ada" }

-- The provider has revoked the grant of this request's session.
abbrev revoking : Flights
revoking = record {
  fly_grant = λ k r. err (retrieve (codes "invalid_grant") ∷ []);
  fly_resolve = λ k r. r;
}

optional_session-no_resurrection_example :
    (cs : List SetCookie) × (left : Context) × (optional_session here revoking none five_past
        no_context with_cookie
      ≡ passed cs left)
    × (update_session here five_past none left with_cookie (some renamed)
        ≡ failed_with left (just session_revoked))
    × (update_session_if here five_past none left with_cookie (some (λ u. (u, true)))
        ≡ failed_with left (just session_revoked))
    × (session_user here five_past left with_cookie ≡ err (just session_revoked))
    × (access_token here five_past none left with_cookie ≡ failed_with left (just session_revoked))
unfolding session_of read_session_cookie cookie str_eq codes go_vai_oidc.Prelude.Text.cut_prefix
    decrypt_session unix maybe_revalidate go_vai_oidc.Revalidate.floor_due
    go_vai_oidc.Prelude.Int.◌-ℤ◌ go_vai_oidc.Session.Payload.from_unix
    go_vai_oidc.Revalidate.revalidate_at_idp go_vai_oidc.Revalidate.apply_grant
    go_vai_oidc.Revalidate.is_session_revoked
optional_session-no_resurrection_example =
    optional_session-no_resurrection here revoking none five_past no_context with_cookie renamed
      (λ u. (u, true)) {e = just session_revoked} refl

abbrev served : Context
served = record { user = some ada; session = some (ok session) }

abbrev named : SessionPayload
named = from_user session (renamed (to_user session))

abbrev there : Auth
there = deployment (codes "ada") named

update_session-read_example :
    let done = update_session there noon (some twelve_bytes) served with_cookie (some renamed) in
    (read_session_cookie
        (codec named)
        key
        five_past
        (codes "s")
        (receive (unix five_past) done.cookies stale)
      ≡ ok named)
    × IsUpdated session (renamed (to_user session)) named
    × (to_user named ≡ record (renamed (to_user session)) {
      auth_time = time_or_zero session.aut;
      landing = none;
    })
unfolding codes unix current_session update_session write_update set_session_cookie encrypt_session
    lay_out
update_session-read_example =
    update_session-read there noon served with_cookie twelve_bytes renamed session five_past stale
      (codec-IsFaithful named) refl (omega arith) refl refl
