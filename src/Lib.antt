-- ===== src/Lib.antt =====
-- Verification library of go-vai-oidc, the OpenID Connect session library for Go services.
--
-- The program signs a browser in against an identity provider (Keycloak) and keeps the session in an
-- encrypted cookie. `handleLogin` starts an authorization round trip under a state cookie and a PKCE
-- cookie; `handleCallback` finishes it, either as a login or, when the sync marker is there, as a
-- silent reconciliation of the session with the browser's identity. `New` builds the Auth of these
-- handlers from a configuration, `NewBackground` does so behind a handle, and the package obolresolver
-- is a `UserResolver` that a configuration may carry. The middleware `RequireSession`
-- and `OptionalSession` and the endpoint `GET session` read the cookie and, once the revalidation
-- floor has passed, ask the provider with a forced refresh, shared between concurrent requests by a
-- flight group; the grant may be followed by a re-resolution of the person's rights. Handlers read
-- and change the session of their request with `Session`, `UpdateSession`, `UpdateSessionIf` and
-- `AccessToken`.
--
-- The parts, the files that model them, and how the code corresponds:
--
--   Prelude        Boolean tests, lists, integers, byte strings and decimal text, with the result type
--                  of fallible code: what the other files share.
--   Errors         errors.go. An error is the list of the faults it wraps, as errors.Is visits them.
--   User           user.go: User, Membership, Landing, the role and team lookups.
--   Config         config.go: the fields of Config, secureCookie, flowCookieName.
--   Setup          config.go: discoveryURL, applyDefaults, validate; Setup/Construction is New of
--                  auth.go, Setup/Routes its Routes, SkipPaths and SkipPathsWithPrefix.
--   Deferred       deferred.go: NewBackground and the handle, as a state machine.
--   Cookie         The cookies a handler sets and the request it reads (session.go, cookieguard.go);
--                  Cookie/Browser is a browser's jar, for the round trips.
--   Session        session.go: Payload (sessionPayload, toUser, fromUser), Crypto (encryptSession,
--                  decryptSession), Chunks (chunkString), Store (setSessionCookie, readSessionCookie,
--                  clearSessionCookie); RoundTrip and Clear hold their theorems.
--   Redirect       auth.go: isValidRedirect, the state cookie, the targets after a login.
--   StepUp         stepup.go: max_age, auth_time and recent authentication.
--   Admission      admission.go and email_domain.go: the gates and the UserResolver.
--   Idp            oidc.go: authCodeURL, exchange, refreshedToken, forcedRefresh, extractUser.
--   Auth           auth.go: the Auth value.
--   Reresolve      reresolve.go: reresolve, applyResolution.
--   Revalidate     revalidate.go: maybeRevalidate, revalidateAtIdP, retryResolution.
--   Flight         revalidate_flight.go: the flight group as a step relation on its call map;
--                  Flight/Callers is the group with the callers that lead and wait.
--   Flow           What the browser-facing handlers share: answers, flow cookies, generatePKCE.
--   Sync           sessionsync.go: handleSessionSync, handleSyncCallback.
--   Login          auth.go: handleLogin, handleCallback, handleLoginCallback.
--   Handlers       auth.go: the middleware, UpdateSession, UpdateSessionIf, Session, IssueSession,
--                  AccessToken, handleSession, handleLogout.
--   Script         sessionsync_script.go: handleSessionSyncScript, handleSessionSyncBlocked.
--   Document       sessionsync.go: writeSyncResult, AuthorizationOrigin.
--   Staff          staff.go: StaffPolicy, Validate, Check, RequireStaff; Staff/Vaudience is
--                  VAIStaffPolicy and IsStaff, Staff/Reasons staffReason.
--   Discovery      discovery_retry.go: discoverWithRetry, isDiscoveryRetryable; Discovery/Provider is
--                  discover of oidc.go.
--   Obol           obolresolver/obolresolver.go: the data and admitLanding; Obol/Resolver is one call
--                  of the service and the UserResolver that New returns.
--   Fixture        testing.go: NewTestAuth, SetTestUser, TestSessionCookie, TestSessionSecret.
--   Scenarios      Concrete runs.
--
-- Login/Start holds handleLogin, Handlers/Logout handleLogout and Revalidate/Timing the time tests of
-- the revalidation, which their parents pass on. The other child files that are not named above hold
-- the theorems about their parent.
--
-- State is passed explicitly: a handler is a function of the configuration, the time, the random bytes
-- that crypto/rand answers, and the request, and answers the cookies it sets and its answer; an
-- operation on the session of a request also answers the context it leaves, since the payload there is
-- shared. A handler runs at one instant: the source's successive calls of time.Now within one handler
-- are one value. Times and durations are unbounded integers of nanoseconds, as no sum of a time and a
-- configured duration comes near the bounds of an int64; the shift in the retry loop of discovery,
-- which does, wraps around at 64 bits, and so does the start of a login that the browser's own cookie
-- names, as the seconds of a time.Time do. Go's strings are lists of bytes, maps are association lists,
-- and nil slices and maps are empty ones. strings.ToLower and strings.EqualFold work on the letters of
-- ASCII and on the letters beyond it that meet those (U+017F, U+212A, U+0130); what they do to other
-- letters is left out, and the claims about a domain are of an ASCII one. http.SetCookie drops the bytes
-- that a cookie value cannot hold from the flow cookies, as the source leans on it; the session's own
-- cookies carry base64url text and chunk headers, which it leaves alone.
--
-- Parameters, for code that is not in the repository: encoding/json, AES-GCM and base64 (Crypto),
-- golang.org/x/oauth2 and go-oidc (Idp, OAuth2 and what NewProvider answers), net/url (Urls, and the
-- parsed URL of a landing), net/mail (Mail), the HTTP client of the resolver (HttpClient, Wire),
-- SHA-256, the UserResolver, and in one request's revalidation what the flights answer (Flights).
-- IsFaithful names what the session cookie relies on: each reader inverts its writer, and base64url
-- text holds no colon. IsForeign names what a failing call of the Obol service relies on: the errors of
-- the parameters wrap none of this module's own.
--
-- Loops are structural recursion. The loop that cuts a session into chunks runs on the length of the
-- string for fuel, which is enough since each round takes at least one byte; the loops over the chunk
-- cookies run on the number of chunks, which is at most eight. The retry loop of discovery runs on the
-- list of its rounds, and answers nothing while it still runs after the last of them; sixteen rounds
-- are enough for the default budget. The background start runs on a schedule of the turns of its
-- goroutine. The replacer behind the script and the document skips over what it has replaced.
--
-- Not modelled: log lines and warnings with the helpers that only serve them (logLoginRefusal,
-- resolverError, unwrapReason, oauthErrorCode, chunkLogLevel), response headers other than Set-Cookie
-- and Location outside Script and Document, the JavaScript text of session sync, and the cancellation
-- of a request's context other than in the retry loop of discovery and in a wait for a flight.
pub mod Prelude
pub mod Errors
pub mod User
pub mod Config
pub mod Cookie
pub mod Session
pub mod Setup
pub mod Redirect
pub mod StepUp
pub mod Admission
pub mod Idp
pub mod Auth
pub mod Reresolve
pub mod Revalidate
pub mod Flight
pub mod Flow
pub mod Sync
pub mod Login
pub mod Handlers
pub mod Staff
pub mod Discovery
pub mod Script
pub mod Document
pub mod Obol
pub mod Deferred
pub mod Fixture
pub mod Scenarios
