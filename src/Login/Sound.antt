-- ===== src/Login/Sound.antt =====
-- auth.go: what a login callback checks before it signs a browser in, and what a refusal does.
use go_vai_oidc.Prelude.{
  Bool, true, false, not, Option, none, some, List, [], ◌∷◌, ◌≡◌, refl, ap, Result, ok, err,
  ok-injective, err-ne-ok, >>=-eq-ok, arith, subst,
}
use go_vai_oidc.Prelude.Int.{ℤ}
use go_vai_oidc.Prelude.Text.{Str, codes, is_empty}
use go_vai_oidc.Errors.{Error}
use go_vai_oidc.Config.{Config, login}
use go_vai_oidc.Cookie.{SetCookie, Request, cookies_named, exactly_one, unique_cookie}
use go_vai_oidc.Config.{flow_cookie_name}
use go_vai_oidc.User.{User}
use go_vai_oidc.Admission.{admit_identity}
use go_vai_oidc.StepUp.{verify_requested_max_age}
use go_vai_oidc.Idp.{Token, IdToken, exchange, extract_user}
use go_vai_oidc.Auth.{Auth}
use go_vai_oidc.Redirect.{parse_state_cookie}
use go_vai_oidc.Session.Store.{set_session_cookie}
use go_vai_oidc.Flow.{cookie_oidc_state, cookie_pkce_verifier, flow_cookie}
use go_vai_oidc.Login.{
  Refusal, missing_state_cookie, missing_pkce_cookie, idp_error, state_mismatch, missing_code,
  max_age_refused, present, require, state_matches, exchanged, is_none, admitted, set_or_refuse,
  SignedIn, login_payload, login_outcome,
}

present-ok : (why : Refusal) (m : Result Error Str) {v : Str} → present why m ≡ ok v → m ≡ ok v
present-ok why (ok v) h = ap ok (ok-injective h)
present-ok why (err e) h = ground arith

require-ok : (b : Bool) (why : Refusal) {u : Unit {0}} → require b why ≡ ok u → b ≡ true
require-ok true why h = refl
require-ok false why h = absurd (err-ne-ok h)

exchanged-ok :
    (m : Result Error (Token × Str × IdToken)) {t : Token × Str × IdToken}
    → exchanged m ≡ ok t
    → m ≡ ok t
exchanged-ok (ok t) h = ap ok (ok-injective h)
exchanged-ok (err e) h = absurd (err-ne-ok h)

admitted-ok : (m : Result Error (Option User)) {u : User} → admitted m ≡ ok u → m ≡ ok (some u)
admitted-ok (ok (some u)) h = ap (λ v. ok (some v)) (ok-injective h)
admitted-ok (ok none) h = absurd (err-ne-ok h)
admitted-ok (err e) h = absurd (err-ne-ok h)

set-ok :
    (m : Result Error (List SetCookie)) {cs : List SetCookie} → set_or_refuse m ≡ ok cs → m ≡ ok cs
set-ok (ok cs) h = ap ok (ok-injective h)
set-ok (err e) h = absurd (err-ne-ok h)

is_none-true {ℓ} : {A : Type ℓ} (o : Option A) → is_none o ≡ true → o ≡ none
is_none-true none h = refl
is_none-true (some x) h = ground arith

exactly_one-ok : (vs : List Str) {v : Str} → exactly_one vs ≡ ok v → vs ≡ v ∷ []
exactly_one-ok [] h = absurd (err-ne-ok h)
exactly_one-ok (w ∷ []) h = ap (λ u. u ∷ []) (ok-injective h)
exactly_one-ok (w ∷ x ∷ vs) h = absurd (err-ne-ok h)

flow_cookie-ok :
    (cfg : Config) (r : Request) (base : Str) {v : Str}
    → flow_cookie cfg r base ≡ ok v
    → cookies_named (flow_cookie_name cfg base) r.cookies ≡ v ∷ []
unfolding flow_cookie unique_cookie
flow_cookie-ok cfg r base h = exactly_one-ok (cookies_named (flow_cookie_name cfg base) r.cookies) h

-- Everything that stands behind a sign-in.
pub record Checked (a : Auth) (now : ℤ) (rand : Option Str) (r : Request) (s : SignedIn)
    : Type 0 where
  pub state_cookie : Str
  pub verifier : Str
  pub token : Token
  pub raw : Str
  pub id_token : IdToken
  pub one_state :
      cookies_named (flow_cookie_name a.cfg cookie_oidc_state) r.cookies ≡ state_cookie ∷ []
  pub one_verifier :
      cookies_named (flow_cookie_name a.cfg cookie_pkce_verifier) r.cookies ≡ verifier ∷ []
  pub no_error : is_empty (r.query (codes "error")) ≡ true
  pub same_state : state_matches r (parse_state_cookie state_cookie).0 ≡ true
  pub code : is_empty (r.query (codes "code")) ≡ false
  pub redeemed : exchange a.idp (r.query (codes "code")) verifier ≡ ok (token, raw, id_token)
  pub recent :
      verify_requested_max_age a.cfg r (extract_user a.idp id_token a.cfg.extra_claims).auth_time
      ≡ none
  pub gated :
      admit_identity a.cfg login (some (extract_user a.idp id_token a.cfg.extra_claims))
      ≡ ok (some s.user)
  pub payload :
      s.payload
      ≡ login_payload a.cfg now token raw
          (extract_user a.idp id_token a.cfg.extra_claims).auth_time
          s.user
  pub session : set_session_cookie a.crypto a.session_key rand a.cfg s.payload ≡ ok s.cookies
  pub target : s.stored_redirect ≡ (parse_state_cookie state_cookie).1

module _ (a : Auth) (now : ℤ) (rand : Option Str) (r : Request) where
  -- A login callback that signs a browser in has found exactly one state cookie and exactly one
  -- verifier cookie, no error in the query, the state of the cookie in the query, and a code, which
  -- the identity provider redeemed with the verifier for a verified ID token; the ID token's
  -- auth_time was within a requested max_age; the gates and the resolver admitted its identity as
  -- the user signed in; and the session is that of that user, token and auth_time.
  pub login_outcome-Checked :
      (s : SignedIn) → login_outcome a now rand r ≡ ok s → Checked a now rand r s
  unfolding login_outcome
  login_outcome-Checked s h =
      let (sc, e1, h1) =
        >>=-eq-ok (present missing_state_cookie (flow_cookie a.cfg r cookie_oidc_state)) _ h in
      let (v, e2, h2) =
        >>=-eq-ok (present missing_pkce_cookie (flow_cookie a.cfg r cookie_pkce_verifier)) _ h1 in
      let (u3, e3, h3) = >>=-eq-ok (require (is_empty (r.query (codes "error"))) idp_error) _ h2 in
      let (u4, e4, h4) =
        >>=-eq-ok (require (state_matches r (parse_state_cookie sc).0) state_mismatch) _ h3 in
      let (u5, e5, h5) =
        >>=-eq-ok (require (not (is_empty (r.query (codes "code")))) missing_code) _ h4 in
      let (t, e6, h6) = >>=-eq-ok (exchanged (exchange a.idp (r.query (codes "code")) v)) _ h5 in
      let who = extract_user a.idp t.2 a.cfg.extra_claims in
      let (u7, e7, h7) =
        >>=-eq-ok
          (require (is_none (verify_requested_max_age a.cfg r who.auth_time)) max_age_refused) _
          h6 in
      let (u, e8, h8) = >>=-eq-ok (admitted (admit_identity a.cfg login (some who))) _ h7 in
      let p = login_payload a.cfg now t.0 t.1 who.auth_time u in
      let (cs, e9, h9) =
        >>=-eq-ok (set_or_refuse (set_session_cookie a.crypto a.session_key rand a.cfg p)) _ h8 in
      subst (Checked a now rand r) (ok-injective h9) (record {
        state_cookie = sc;
        verifier = v;
        token = t.0;
        raw = t.1;
        id_token = t.2;
        one_state = flow_cookie-ok a.cfg r cookie_oidc_state (present-ok missing_state_cookie _ e1);
        one_verifier =
            flow_cookie-ok a.cfg r cookie_pkce_verifier (present-ok missing_pkce_cookie _ e2);
        no_error = require-ok _ idp_error e3;
        same_state = require-ok _ state_mismatch e4;
        code = ground (arith, require-ok _ missing_code e5);
        redeemed = exchanged-ok _ e6;
        recent = is_none-true _ (require-ok _ max_age_refused e7);
        gated = admitted-ok _ e8;
        payload = refl;
        session = set-ok _ e9;
        target = refl;
      })
