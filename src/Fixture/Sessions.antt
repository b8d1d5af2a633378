-- ===== src/Fixture/Sessions.antt =====
-- testing.go with auth.go: a test's session in the session middleware.
use go_vai_oidc.Prelude.{
  ◌≡◌, refl, sym, ap, true, Option, none, some, List, [], ◌∷◌, ◌*◌, arith, Result, ok, err, length,
  All, ◌≢◌, subst, some-eq,
}
use go_vai_oidc.Prelude.Int.{ℤ, pos, leb_ℤ, ◌+ℤ◌, ◌≤ℤ◌}
use go_vai_oidc.Prelude.Text.{Str, codes, cut_prefix, cut_prefix-none, str_eq_self}
use go_vai_oidc.Errors.{Error}
use go_vai_oidc.User.{User}
use go_vai_oidc.Redirect.{Urls}
use go_vai_oidc.Cookie.{Request, cookie}
use go_vai_oidc.Auth.{Auth}
use go_vai_oidc.Session.Payload.{
  SessionPayload, second, unix, unix_or_zero, time_or_zero, from_user, to_user,
}
use go_vai_oidc.Session.Crypto.{Crypto, IsFaithful, nonce_size, encrypt_session-ok, decrypt-encrypt}
use go_vai_oidc.Session.Store.{chunk_count_prefix, reassemble}
use go_vai_oidc.Session.RoundTrip.{read_session_cookie-ok}
use go_vai_oidc.Revalidate.{Flights, maybe_revalidate}
use go_vai_oidc.Flow.{session_of}
use go_vai_oidc.Discovery.Provider.{OAuth2}
use go_vai_oidc.Handlers.{Context, passed, with_session, require_session}
use go_vai_oidc.Fixture.{fixture_payload, named_cookie, new_test_auth, test_session_cookie}

-- A session is served unchanged where sessions are not revalidated.
require_session-unchanged :
    (a : Auth) (flights : Flights) (rand : Option Str) (now : ℤ) (r : Request) (p : SessionPayload)
    → a.cfg.revalidate_interval ≤ℤ pos 0
    → session_of a now r ≡ ok p
    → require_session a flights rand now r ≡ passed [] (with_session p)
unfolding require_session maybe_revalidate
require_session-unchanged a flights rand now r p never held =
    let off : leb_ℤ a.cfg.revalidate_interval (pos 0) ≡ true = ground arith in rw (held, off) refl

plain-reassemble :
    (name : Str) (cookies : List (Str × Str)) (encoded : Str)
    → All (λ b. b ≢ b':') encoded
    → reassemble name cookies encoded ≡ ok encoded
unfolding reassemble codes
plain-reassemble name cookies encoded plain =
    let whole : cut_prefix encoded chunk_count_prefix ≡ none =
      cut_prefix-none encoded (codes "chunked") b':' [] plain in
    rw whole refl

named_cookie-ok :
    (name : Str) (m : Result Error Str) (c : Str × Str)
    → named_cookie name m ≡ some c
    → (m ≡ ok c.1) × (c.0 ≡ name)
named_cookie-ok name (err e) c h = cc
named_cookie-ok name (ok value) c h =
    let same : (name, value) ≡ c = some-eq h in (ap (λ d. ok d.1) same, sym (ap (λ d. d.0) same))

-- A cookie that was made for a user is read as that user's session.
test_session_cookie-session_of :
    (a : Auth) (nonce : Str) (now later : ℤ) (u : User) (c : Str × Str) (rest : List (Str × Str))
    (r : Request)
    → test_session_cookie a (some nonce) now u ≡ some c
    → r.cookies ≡ c ∷ rest
    → IsFaithful a.crypto a.session_key (fixture_payload a now u)
    → length nonce ≡ nonce_size
    → unix later ≤ℤ unix (now +ℤ a.cfg.session_ttl)
    → session_of a later r ≡ ok (fixture_payload a now u)
unfolding test_session_cookie session_of from_user
test_session_cookie-session_of a nonce now later u c rest r made held law size live =
    let p = fixture_payload a now u in
    let (sealed, name) = named_cookie-ok a.cfg.cookie_name _ c made in
    let (s, marshalled, good, same) = encrypt_session-ok a.crypto a.session_key nonce p sealed in
    let found : cookie a.cfg.cookie_name (c ∷ rest) ≡ some c.1 =
      unfold cookie in rw (name, str_eq_self a.cfg.cookie_name) refl in
    rw held (
      read_session_cookie-ok a.crypto a.session_key later a.cfg.cookie_name (c ∷ rest) found
        (plain-reassemble _ _ c.1 (subst (All (λ b. b ≢ b':')) same (law.encode-no_colon _)))
        (decrypt-encrypt a.crypto a.session_key nonce p later law size live sealed))

-- The context of a handler that is served the session of a test.
abbrev served_context : Auth → ℤ → User → Context
served_context a now u = record {
  user = some (record u { auth_time = time_or_zero (unix_or_zero u.auth_time); landing = none });
  session = some (ok (fixture_payload a now u));
}

-- A cookie that a test's Auth makes for a user carries a request through RequireSession, as the
-- first cookie of its name, for the hour that the session lives: nothing is revalidated, no cookie is
-- set, and the handler meets the user, with the time of authentication in whole seconds and without
-- a landing. The codec laws and a nonce of the right size are assumed.
pub test_session_cookie-require_session :
    (crypto : Crypto) (urls : Urls) (sha256 : Str → Str) (lib : OAuth2) (key nonce : Str) (a : Auth)
    (flights : Flights) (rand : Option Str) (now later : ℤ) (u : User) (c : Str × Str)
    (rest : List (Str × Str)) (r : Request)
    → new_test_auth crypto urls sha256 lib (some key) ≡ some a
    → test_session_cookie a (some nonce) now u ≡ some c
    → r.cookies ≡ c ∷ rest
    → IsFaithful crypto key (fixture_payload a now u)
    → length nonce ≡ nonce_size
    → unix later ≤ℤ unix (now +ℤ pos (3600 * second))
    → (require_session a flights rand later r
        ≡ passed [] (record {
          user =
              some
                (record u { auth_time = time_or_zero (unix_or_zero u.auth_time); landing = none });
          session = some (ok (fixture_payload a now u));
        }))
unfolding new_test_auth to_user from_user
test_session_cookie-require_session crypto urls sha256 lib key nonce a flights rand now later u c
      rest r fresh made held law size live =
    subst
      (λ a.
        test_session_cookie a (some nonce) now u ≡ some c
        → IsFaithful crypto key (fixture_payload a now u)
        → require_session a flights rand later r ≡ passed [] (served_context a now u))
      (some-eq fresh)
      (λ made law.
        require_session-unchanged _ flights rand later r _ (omega arith)
          (test_session_cookie-session_of _ nonce now later u c rest r made held law size live))
      made law
