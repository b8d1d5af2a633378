-- ===== src/Errors.antt =====
-- errors.go, and the unexported markers of admission.go, cookieguard.go and revalidate_flight.go.
-- A Go error is the list of the faults that it wraps, in the order in which errors.Is and
-- errors.As visit them; errors.Join and fmt.Errorf with %w concatenate.
use go_vai_oidc.Prelude.{ℕ, Bool, false, ◌||◌, Option, none, some, List, [], ◌∷◌, ◌==◌}
use go_vai_oidc.Prelude.Text.{Str}

pub data Sentinel : Type 0 where
  invalid_config session_key_invalid discovery_failed : Sentinel
  session_expired session_invalid no_session : Sentinel
  token_exchange token_verification : Sentinel
  tokens_not_retained token_refresh_failed session_revoked : Sentinel
  email_domain_mismatch email_claim_missing email_not_verified : Sentinel
  not_staff staff_role_missing staff_policy_invalid invalid_return_path : Sentinel
  resolver_failed resolver_no_user : Sentinel
  no_cookie duplicate_cookie revalidation_abandoned : Sentinel

-- Sentinel errors are told apart by identity.
abbrev pub identity : Sentinel → ℕ
identity invalid_config = 0
identity session_key_invalid = 1
identity discovery_failed = 2
identity session_expired = 3
identity session_invalid = 4
identity no_session = 5
identity token_exchange = 6
identity token_verification = 7
identity tokens_not_retained = 8
identity token_refresh_failed = 9
identity session_revoked = 10
identity email_domain_mismatch = 11
identity email_claim_missing = 12
identity email_not_verified = 13
identity not_staff = 14
identity staff_role_missing = 15
identity staff_policy_invalid = 16
identity invalid_return_path = 17
identity resolver_failed = 18
identity resolver_no_user = 19
identity no_cookie = 20
identity duplicate_cookie = 21
identity revalidation_abandoned = 22

-- `retrieve` is an *oauth2.RetrieveError with its `error` code; `message` any other error.
pub data Fault : Type 0 where
  sentinel : Sentinel → Fault
  retrieve : Str → Fault
  message : Str → Fault

abbrev pub Error : Type 0
Error = List Fault

abbrev pub just : Sentinel → Error
just s = sentinel s ∷ []

abbrev pub is_fault : Sentinel → Fault → Bool
is_fault s (sentinel t) = identity s == identity t
is_fault s (retrieve c) = false
is_fault s (message m) = false

-- errors.Is(err, s)
abbrev pub error_is : Error → Sentinel → Bool
error_is [] s = false
error_is (f ∷ fs) s = is_fault s f || error_is fs s

-- errors.As(err, &retrieve): the code of the first RetrieveError.
abbrev pub as_retrieve : Error → Option Str
as_retrieve [] = none
as_retrieve (retrieve c ∷ fs) = some c
as_retrieve (sentinel s ∷ fs) = as_retrieve fs
as_retrieve (message m ∷ fs) = as_retrieve fs
