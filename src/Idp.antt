-- ===== src/Idp.antt =====
-- oidc.go: the code's side of the identity provider. golang.org/x/oauth2, go-oidc and the JSON text
-- of a claim are the parameters of `Idp`.
use go_vai_oidc.Prelude.{
  ◌*◌, ◌-◌, ◌^◌, Bool, false, Option, none, some, List, [], ◌∷◌, ◌++◌, if◌then◌else◌, Result, ok,
  err, ◌>>=◌, ◌||◌,
}
use go_vai_oidc.Prelude.Int.{ℤ, pos, negsuc, div_ℤ, leb_ℤ, ltb_ℤ}
use go_vai_oidc.Prelude.Text.{Str, codes, str_eq, is_empty, equal_fold}
use go_vai_oidc.Errors.{Error, just, token_exchange, token_verification, token_refresh_failed}
use go_vai_oidc.User.{User}
use go_vai_oidc.Session.Payload.{second, from_unix}

-- A decoded JSON claim; a number is scaled by 10^9.
mutual
  pub data Claim : Type 0 where
    text : Str → Claim
    truth : Bool → Claim
    number : ℤ → Claim
    list : Items → Claim
    object : Fields → Claim
    null : Claim

  pub data Items : Type 0 where
    no_items : Items
    item : Claim → Items → Items

  pub data Fields : Type 0 where
    no_fields : Fields
    field : Str → Claim → Fields → Fields

-- The `Expiry` of a token that has none: year 1.
abbrev pub zero_time : ℤ
zero_time = negsuc (62135596800 * second - 1)

-- oauth2.Token; `id_token` is Extra("id_token") where it is a string.
pub record Token : Type 0 where
  pub access_token : Str
  pub refresh_token : Str
  pub expiry : ℤ
  pub id_token : Option Str

-- A verified ID token; claims that do not decode are no fields.
pub record IdToken : Type 0 where
  pub subject : Str
  pub claims : Fields

-- `exchange_code` takes the code and the PKCE verifier; `token_source` is
-- TokenSource(ctx, stored).Token(); `verifier` is nil or verifies a raw ID token;
-- `oauth2_auth_code_url` is oauth2's AuthCodeURL by the state and the other parameters.
pub record Idp : Type 0 where
  pub exchange_code : Str → Str → Result Error Token
  pub token_source : Token → Result Error Token
  pub verifier : Option (Str → Result Error IdToken)
  pub marshal_claim : Claim → Option Str
  pub oauth2_auth_code_url : Str → List (Str × Str) → Str
  pub authorization_endpoint : Str
  pub end_session_url : Str

-- The entries of a map of extra parameters that have a name and a value.
unfoldable pub filled_in : List (Str × Str) → List (Str × Str)
filled_in [] = []
filled_in ((k, v) ∷ extra) =
    let rest = filled_in extra in if is_empty k || is_empty v then rest else (k, v) ∷ rest

-- `authCodeURL`
unfoldable pub auth_code_url : Idp → Str → Str → List (Str × Str) → Str
unfolding filled_in
auth_code_url idp state challenge extra = idp.oauth2_auth_code_url state (
    (codes "code_challenge", challenge)
    ∷ (codes "code_challenge_method", codes "S256")
    ∷ filled_in extra)

unfoldable pub claim : Str → Fields → Option Claim
claim key no_fields = none
claim key (field k c fs) = if str_eq k key then some c else claim key fs

abbrev text_of : Option Claim → Str
text_of (some (text s)) = s
text_of _ = []

-- `extractEmailVerified`
unfoldable pub extract_email_verified : Option Claim → Bool
extract_email_verified (some (truth b)) = b
extract_email_verified (some (text s)) = equal_fold s (codes "true")
extract_email_verified _ = false

unfoldable pub text_items : Items → List Str
text_items no_items = []
text_items (item (text s) is) = s ∷ text_items is
text_items (item _ is) = text_items is

abbrev roles_of : Option Claim → List Str
roles_of (some (list is)) = text_items is
roles_of _ = []

-- `extractRealmRoles`
unfoldable pub extract_realm_roles : Option Claim → List Str
unfolding text_items claim
extract_realm_roles (some (object fs)) = roles_of (claim (codes "roles") fs)
extract_realm_roles _ = []

-- `extractAuthTime` of stepup.go
unfoldable pub extract_auth_time : Option Claim → Option ℤ
unfolding div_ℤ from_unix
extract_auth_time (some (number v)) =
    if leb_ℤ v (pos 0) || ltb_ℤ (pos (2 ^ 63 * second)) v
    then none
    else some (from_unix (div_ℤ v second))
extract_auth_time _ = none

abbrev claim_text : Idp → Option Claim → Option Str
claim_text idp none = none
claim_text idp (some (text s)) = some s
claim_text idp (some c) = idp.marshal_claim c

abbrev keep : Str → Option Str → List (Str × Str) → List (Str × Str)
keep key none rest = rest
keep key (some v) rest = (key, v) ∷ rest

-- The extra claims that are there, in the order in which they are configured.
unfoldable pub extra_claims_of : Idp → Fields → List Str → List (Str × Str)
extra_claims_of idp claims [] = []
extra_claims_of idp claims (key ∷ keys) =
    keep key (claim_text idp (claim key claims)) (extra_claims_of idp claims keys)

-- `extractUser`
unfoldable pub extract_user : Idp → IdToken → List Str → User
unfolding claim extract_email_verified extract_realm_roles extract_auth_time extra_claims_of
extract_user idp t extra = record {
  sub = t.subject;
  email = text_of (claim (codes "email") t.claims);
  email_verified = extract_email_verified (claim (codes "email_verified") t.claims);
  name = text_of (claim (codes "name") t.claims);
  org_id = [];
  memberships = [];
  claims = extra_claims_of idp t.claims extra;
  session_id = text_of (claim (codes "sid") t.claims);
  realm_roles = extract_realm_roles (claim (codes "realm_access") t.claims);
  auth_time = extract_auth_time (claim (codes "auth_time") t.claims);
  landing = none;
}

abbrev wrap {ℓ} : {A : Type ℓ} → Error → Result Error A → Result Error A
wrap marks (ok a) = ok a
wrap marks (err e) = err (marks ++ e)

abbrev raw_id_token : Option Str → Result Error Str
raw_id_token none = err (just token_exchange)
raw_id_token (some raw) = if is_empty raw then err (just token_exchange) else ok raw

-- The verifier of a provider that discovery has built is never nil.
abbrev pub verify_raw : Option (Str → Result Error IdToken) → Str → Result Error IdToken
verify_raw none raw = err []
verify_raw (some verify) raw = verify raw

-- `exchange`: the token set, the raw ID token and the verified one.
unfoldable pub exchange : Idp → Str → Str → Result Error (Token × Str × IdToken)
exchange idp code code_verifier = do
  token ← wrap (just token_exchange) (idp.exchange_code code code_verifier)
  raw ← raw_id_token token.id_token
  id_token ← wrap (just token_verification) (verify_raw idp.verifier raw)
  ok (token, raw, id_token)

-- `refreshedToken`
unfoldable pub refreshed_token : Idp → Str → Str → ℤ → Result Error Token
unfolding from_unix
refreshed_token idp access refresh exp = wrap (just token_refresh_failed) (
    idp.token_source (record {
      access_token = access;
      refresh_token = refresh;
      expiry = from_unix exp;
      id_token = none;
    }))

-- `forcedRefresh`: a token that carries the refresh token alone.
unfoldable pub forced_refresh : Idp → Str → Result Error Token
forced_refresh idp refresh =
    if is_empty refresh
    then err (just token_refresh_failed)
    else wrap (just token_refresh_failed) (
        idp.token_source (record {
          access_token = [];
          refresh_token = refresh;
          expiry = zero_time;
          id_token = none;
        }))

-- `VerifyIDToken` of auth.go, with the verifier that its caller has found.
unfoldable pub verify_id_token :
    Idp → List Str → (Str → Result Error IdToken) → Str → Result Error User
unfolding extract_user
verify_id_token idp extra verify raw = do
  t ←
      if is_empty raw
      then err (just token_verification)
      else wrap (just token_verification) (verify raw)
  ok (extract_user idp t extra)
