-- ===== src/Sync/Verdicts.antt =====
-- sessionsync.go: when the callback answers what.
use go_vai_oidc.Prelude.{
  true, false, Option, [], ◌∷◌, ◌≡◌, refl, sym, ap, ◌∙◌, ◌≢◌, ◌↔◌, ◌⊎◌, inl, inr, Result, ok, err,
  arith,
}
use go_vai_oidc.Prelude.Int.{ℤ}
use go_vai_oidc.Prelude.Text.{Str, codes, str_eq, str_eq_iff, is_empty}
use go_vai_oidc.Errors.{Error}
use go_vai_oidc.Cookie.{Request}
use go_vai_oidc.User.{User}
use go_vai_oidc.Idp.{Token, IdToken, exchange, extract_user}
use go_vai_oidc.Auth.{Auth}
use go_vai_oidc.Session.Payload.{SessionPayload, is_grant_minted}
use go_vai_oidc.Flow.{
  SyncResult, unchanged, switched, signed_out, no_session, failed, not_applicable, verdict,
  cookie_oidc_state, cookie_pkce_verifier, flow_cookie, session_of,
}
use go_vai_oidc.Sync.{
  Conclusion, no_answer, nothing_held, grant_keeps, signed_off, other_person, same_person,
  judge_identity, judge_exchange, judge_code, judge_error, judge_session, state_matches, judge,
  conclusion, render, handle_sync_callback, is_sync_no_session_error, sync_same_identity,
}

abbrev answered : Conclusion → SyncResult
answered no_answer = failed
answered nothing_held = no_session
answered grant_keeps = not_applicable
answered signed_off = signed_out
answered other_person = switched
answered (same_person q) = unchanged

render-answered : (a : Auth) (rand : Option Str) (c : Conclusion) → (render a rand c).1 ≡ answered c
render-answered a rand no_answer = refl
render-answered a rand nothing_held = refl
render-answered a rand grant_keeps = refl
render-answered a rand signed_off = refl
render-answered a rand other_person = refl
render-answered a rand (same_person q) = refl

callback_answer :
    (a : Auth) (now : ℤ) (rand : Option Str) (r : Request)
    → (handle_sync_callback a now rand r).answer ≡ verdict (answered (conclusion a now r))
unfolding handle_sync_callback
callback_answer a now rand r = ap verdict (render-answered a rand (conclusion a now r))

verdict-injective : {x y : SyncResult} → verdict x ≡ verdict y → x ≡ y
verdict-injective h = cc

answered-signed_out : (c : Conclusion) → answered c ≡ signed_out → c ≡ signed_off
answered-signed_out c h = ground arith

answered-switched : (c : Conclusion) → answered c ≡ switched → c ≡ other_person
answered-switched c h = ground arith

-- The session that a callback reads, when it gets to reading it.
abbrev pub Judged : Auth → ℤ → Request → Str → Str → SessionPayload → Type 0
Judged a now r state verifier p =
    (flow_cookie a.cfg r cookie_oidc_state ≡ ok state)
    × (flow_cookie a.cfg r cookie_pkce_verifier ≡ ok verifier)
    × (session_of a now r ≡ ok p)

conclusion-judge :
    (a : Auth) (now : ℤ) (r : Request) {state verifier : Str} {p : SessionPayload}
    → Judged a now r state verifier p
    → conclusion a now r ≡ judge_session a now r state verifier (ok p)
unfolding conclusion
conclusion-judge a now r (s, v, held) = rw (s, v, held) refl

no_session_code : (code : Str) → is_sync_no_session_error code ≡ true → is_empty code ≡ false
unfolding is_sync_no_session_error str_eq codes
no_session_code [] h = ground arith
no_session_code (c ∷ code) h = refl

-- The four errors by which the identity provider says that the browser has no session with it.
abbrev pub IsNoSessionError : Str → Type 0
IsNoSessionError code =
    (code ≡ codes "login_required")
    ⊎ (code ≡ codes "interaction_required")
    ⊎ (code ≡ codes "consent_required")
    ⊎ (code ≡ codes "account_selection_required")

is_sync_no_session_error_iff :
    (code : Str) → (is_sync_no_session_error code ≡ true) ↔ IsNoSessionError code
unfolding is_sync_no_session_error
is_sync_no_session_error_iff code = ground (
  arith,
  str_eq_iff code (codes "login_required"),
  str_eq_iff code (codes "interaction_required"),
  str_eq_iff code (codes "consent_required"),
  str_eq_iff code (codes "account_selection_required"),
)

judge_identity-ne :
    (a : Auth) (now : ℤ) (p : SessionPayload) (t : Token) (u : User)
    → judge_identity a now p t u ≢ signed_off
judge_identity-ne a now p t u h = ground arith

judge_code-ne :
    (a : Auth) (now : ℤ) (r : Request) (p : SessionPayload) (v : Str)
    → judge_code a now r p v ≢ signed_off
judge_code-ne a now r p v h = ground arith

judge_session-signed_off :
    (a : Auth) (now : ℤ) (r : Request) (s v : Str) (m : Result Error SessionPayload)
    → judge_session a now r s v m ≡ signed_off
    → (p : SessionPayload) × (m ≡ ok p)
      × (is_sync_no_session_error (r.query (codes "error")) ≡ true)
      × (is_grant_minted p ≡ false)
judge_session-signed_off a now r s v (err e) h = ground arith
judge_session-signed_off a now r s v (ok p) h =
    (p, refl, ground (arith, judge_code-ne a now r p v), ground (arith, judge_code-ne a now r p v))

judge_identity-other :
    (a : Auth) (now : ℤ) (p : SessionPayload) (t : Token) (u : User)
    → judge_identity a now p t u ≡ other_person
    → sync_same_identity p u ≡ false
judge_identity-other a now p t u h = ground arith

module _ (a : Auth) (now : ℤ) (p : SessionPayload) where
  abbrev pub Differs : Result Error (Token × Str × IdToken) → Type 0
  Differs m =
      (t : Token) × (raw : Str) × (id : IdToken) × (m ≡ ok (t, raw, id))
      × (sync_same_identity p (extract_user a.idp id a.cfg.extra_claims) ≡ false)

  judge_exchange-other :
      (m : Result Error (Token × Str × IdToken))
      → judge_exchange a now p m ≡ other_person
      → Differs m
  judge_exchange-other (err e) h = ground arith
  judge_exchange-other (ok (t, raw, id)) h = (
    t,
    raw,
    id,
    refl,
    judge_identity-other a now p t (extract_user a.idp id a.cfg.extra_claims) h,
  )

  judge_code-other :
      (r : Request) (v : Str)
      → judge_code a now r p v ≡ other_person
      → Differs (exchange a.idp (r.query (codes "code")) v)
  judge_code-other r v h =
      judge_exchange-other (exchange a.idp (r.query (codes "code")) v) (ground arith)

  judge_error-ne : (code : Str) → judge_error p code ≢ other_person
  judge_error-ne code h = ground arith

  judge_session-other :
      (r : Request) (s v : Str)
      → judge_session a now r s v (ok p) ≡ other_person
      → (state_matches r s ≡ true) × Differs (exchange a.idp (r.query (codes "code")) v)
  judge_session-other r s v h =
      let code = judge_error-ne (r.query (codes "error")) in
      let came : judge_code a now r p v ≡ other_person = ground (arith, code) in
      (ground (arith, code), judge_code-other r v came)

-- A conclusion about a session is drawn under both flow cookies.
module _ (a : Auth) (now : ℤ) (r : Request) where
  judge-drawn :
      (s v : Result Error Str) (c : Conclusion)
      → judge a now r s v ≡ c
      → (c ≡ no_answer)
        ⊎ ((state : Str) × (verifier : Str) × (s ≡ ok state)
            × (v ≡ ok verifier)
            × (judge_session a now r state verifier (session_of a now r) ≡ c))
  judge-drawn (err e) v c h = inl (sym h)
  judge-drawn (ok s) (err e) c h = inl (sym h)
  judge-drawn (ok s) (ok v) c h = inr (s, v, refl, refl, h)

  conclusion-drawn :
      (c : Conclusion)
      → c ≢ no_answer
      → conclusion a now r ≡ c
      → (state : Str) × (verifier : Str) × (flow_cookie a.cfg r cookie_oidc_state ≡ ok state)
        × (flow_cookie a.cfg r cookie_pkce_verifier ≡ ok verifier)
        × (judge_session a now r state verifier (session_of a now r) ≡ c)
  unfolding conclusion
  conclusion-drawn c ne h =
      elim (judge-drawn (flow_cookie a.cfg r cookie_oidc_state)
        (flow_cookie a.cfg r cookie_pkce_verifier) c h) [ inl e ↦ absurd (ne e) | inr d ↦ d ]

  abbrev pub SignedOut : Type 0
  SignedOut =
      (state : Str) × (verifier : Str) × (p : SessionPayload) × Judged a now r state verifier p
      × IsNoSessionError (r.query (codes "error"))
      × (is_grant_minted p ≡ false)

  abbrev pub Switched : Type 0
  Switched =
      (state : Str) × (verifier : Str) × (p : SessionPayload) × Judged a now r state verifier p
      × (state_matches r state ≡ true)
      × Differs a now p (exchange a.idp (r.query (codes "code")) verifier)

  signed_off-SignedOut : conclusion a now r ≡ signed_off → SignedOut
  signed_off-SignedOut h =
      let (state, verifier, s, v, j) = conclusion-drawn signed_off (λ e. cc) h in
      let (p, held, code, minted) =
        judge_session-signed_off a now r state verifier (session_of a now r) j in
      (
        state,
        verifier,
        p,
        (s, v, held),
        (is_sync_no_session_error_iff (r.query (codes "error"))).0 code,
        minted,
      )

  SignedOut-signed_off : SignedOut → conclusion a now r ≡ signed_off
  SignedOut-signed_off (state, verifier, p, d, named, minted) =
      let code = (is_sync_no_session_error_iff (r.query (codes "error"))).1 named in
      conclusion-judge a now r d
      ∙ rw (no_session_code (r.query (codes "error")) code, code, minted) refl

  other-Switched : conclusion a now r ≡ other_person → Switched
  other-Switched h =
      let (state, verifier, s, v, j) = conclusion-drawn other_person (λ e. cc) h in
      other_session state verifier s v (session_of a now r) refl j
    where
      other_session :
          (state verifier : Str)
          → flow_cookie a.cfg r cookie_oidc_state ≡ ok state
          → flow_cookie a.cfg r cookie_pkce_verifier ≡ ok verifier
          → (m : Result Error SessionPayload) → session_of a now r ≡ m
          → judge_session a now r state verifier m ≡ other_person
          → Switched
      other_session state verifier s v (err e) held j = ground arith
      other_session state verifier s v (ok p) held j =
          let (same, d) = judge_session-other a now p r state verifier j in
          (state, verifier, p, (s, v, held), same, d)

  -- The browser is told that it has signed out exactly when the one state cookie and the one
  -- verifier cookie are there, a session was read, that session was not minted from a grant, and the
  -- identity provider answered login_required, interaction_required, consent_required or
  -- account_selection_required.
  pub signed_out_iff :
      (rand : Option Str)
      → ((handle_sync_callback a now rand r).answer ≡ verdict signed_out) ↔ SignedOut
  signed_out_iff rand = (
    λ h.
        signed_off-SignedOut
          (answered-signed_out _ (verdict-injective (sym (callback_answer a now rand r) ∙ h))),
    λ d. callback_answer a now rand r ∙ ap (λ c. verdict (answered c)) (SignedOut-signed_off d),
  )

  -- The browser is told that it has switched identity only when a session was read under both flow
  -- cookies, the state matched, the code was exchanged, and the ID token names another identity
  -- than the session does.
  pub switched_sound :
      (rand : Option Str) → (handle_sync_callback a now rand r).answer ≡ verdict switched → Switched
  switched_sound rand h =
      other-Switched
        (answered-switched _ (verdict-injective (sym (callback_answer a now rand r) ∙ h)))
