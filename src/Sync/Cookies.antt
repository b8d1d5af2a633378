-- ===== src/Sync/Cookies.antt =====
-- sessionsync.go: what the callback does to the session cookies.
use go_vai_oidc.Prelude.{
  true, false, Option, ◌++◌, ◌≡◌, refl, ◌⊎◌, inl, inr, Result, ok, err, arith,
}
use go_vai_oidc.Prelude.Int.{ℤ, ◌+ℤ◌}
use go_vai_oidc.Prelude.Text.{Str, codes, is_empty}
use go_vai_oidc.Errors.{Error}
use go_vai_oidc.Config.{Config}
use go_vai_oidc.Cookie.{Request}
use go_vai_oidc.User.{User}
use go_vai_oidc.Idp.{Token, IdToken, exchange, extract_user}
use go_vai_oidc.Auth.{Auth}
use go_vai_oidc.Session.Payload.{SessionPayload, unix, is_grant_minted}
use go_vai_oidc.Session.Store.{clear_session_cookie}
use go_vai_oidc.Revalidate.{write_session}
use go_vai_oidc.Flow.{
  unchanged, switched, signed_out, no_session, failed, not_applicable, verdict, Response,
  flow_cookie, session_of, cookie_oidc_state, cookie_pkce_verifier,
}
use go_vai_oidc.Sync.{
  Conclusion, no_answer, nothing_held, grant_keeps, signed_off, other_person, same_person,
  judge_identity, judge_exchange, judge_session, judge, conclusion, render, sync_clears,
  handle_sync_callback, restamped,
}

-- What a session keeps through the callback: the person, the rights, the claims and the step-up
-- time. Its anchor and expiry move to `now`. With retention, and unless it was minted from a grant,
-- it takes the tokens `t` of the exchange, but keeps its refresh token if there is no new one; a sid
-- is recorded when it had none.
pub record Restamped (cfg : Config) (now : ℤ) (p : SessionPayload) (t : Token) (u : User)
    (q : SessionPayload) : Type 0 where
  pub sub : q.sub ≡ p.sub
  pub email : q.email ≡ p.email
  pub verified : q.ev ≡ p.ev
  pub name : q.name ≡ p.name
  pub claims : q.claims ≡ p.claims
  pub id_token : q.id_token ≡ p.id_token
  pub retry : q.resolve_retry_at ≡ p.resolve_retry_at
  pub org : q.org_id ≡ p.org_id
  pub memberships : q.mbs ≡ p.mbs
  pub roles : q.rls ≡ p.rls
  pub source : q.src ≡ p.src
  pub auth_time : q.aut ≡ p.aut
  pub anchor : q.last_validated ≡ unix now
  pub expiry : q.exp ≡ unix (now +ℤ cfg.session_ttl)
  pub tokens :
      ((cfg.retain_tokens ≡ false) ⊎ (is_grant_minted p ≡ true))
        × (q.access_token ≡ p.access_token)
        × (q.access_token_exp ≡ p.access_token_exp)
        × (q.refresh_token ≡ p.refresh_token)
      ⊎ (cfg.retain_tokens ≡ true)
        × (is_grant_minted p ≡ false)
        × (q.access_token ≡ t.access_token)
        × (q.access_token_exp ≡ unix t.expiry)
        × ((is_empty t.refresh_token ≡ true) × (q.refresh_token ≡ p.refresh_token)
            ⊎ (is_empty t.refresh_token ≡ false) × (q.refresh_token ≡ t.refresh_token))
  pub sid :
      ((is_empty p.sid ≡ false) ⊎ (is_grant_minted p ≡ true)) × (q.sid ≡ p.sid)
      ⊎ (is_empty p.sid ≡ true) × (is_grant_minted p ≡ false) × (q.sid ≡ u.session_id)

restamped-Restamped :
    (cfg : Config) (now : ℤ) (p : SessionPayload) (t : Token) (u : User)
    → Restamped cfg now p t u (restamped cfg now p t u)
unfolding restamped
restamped-Restamped cfg now p t u = record {
  sub = ground arith;
  email = ground arith;
  verified = ground arith;
  name = ground arith;
  claims = ground arith;
  id_token = ground arith;
  retry = ground arith;
  org = ground arith;
  memberships = ground arith;
  roles = ground arith;
  source = ground arith;
  auth_time = ground arith;
  anchor = ground arith;
  expiry = ground arith;
  tokens = ground arith;
  sid = ground arith;
}

-- The code of the query, exchanged with the verifier `v`, has brought the session from `p` to `q`.
abbrev pub Reconciled : Auth → ℤ → Request → Str → SessionPayload → SessionPayload → Type 0
Reconciled a now r v p q =
    (t : Token) × (raw : Str) × (id : IdToken) × (exchange a.idp (r.query (codes "code")) v
      ≡ ok (t, raw, id))
    × Restamped a.cfg now p t (extract_user a.idp id a.cfg.extra_claims) q

judge_session-same :
    (a : Auth) (now : ℤ) (r : Request) (s v : Str) (m : Result Error SessionPayload)
    {q : SessionPayload}
    → judge_session a now r s v m ≡ same_person q
    → (p : SessionPayload) × (m ≡ ok p) × Reconciled a now r v p q
judge_session-same a now r s v (err e) {q} h = ground arith
judge_session-same a now r s v (ok p) {q} h = (p, refl, of_session h)
  where
    of_identity :
        (t : Token) (u : User)
        → judge_identity a now p t u ≡ same_person q
        → Restamped a.cfg now p t u q
    of_identity t u j =
        let e : restamped a.cfg now p t u ≡ q = ground arith in
        rw e at (restamped-Restamped a.cfg now p t u)

    of_exchange :
        (m : Result Error (Token × Str × IdToken))
        → judge_exchange a now p m ≡ same_person q
        → (t : Token) × (raw : Str) × (id : IdToken) × (m ≡ ok (t, raw, id))
          × Restamped a.cfg now p t (extract_user a.idp id a.cfg.extra_claims) q
    of_exchange (err e) j = ground arith
    of_exchange (ok (t, raw, id)) j =
        (t, raw, id, refl, of_identity t (extract_user a.idp id a.cfg.extra_claims) j)

    of_session : judge_session a now r s v (ok p) ≡ same_person q → Reconciled a now r v p q
    of_session j = of_exchange (exchange a.idp (r.query (codes "code")) v) (ground arith)

-- The three things that a callback can do to the session: keep its cookies, remove them, rewrite
-- them.
module _ (a : Auth) (now : ℤ) (rand : Option Str) (r : Request) where
  abbrev pub Handled : Response → Type 0
  Handled out =
      ((out.cookies ≡ sync_clears a)
        × ((out.answer ≡ verdict failed)
            ⊎ (out.answer ≡ verdict no_session)
            ⊎ (out.answer ≡ verdict not_applicable)))
      ⊎ ((out.cookies ≡ sync_clears a ++ clear_session_cookie a.cfg)
          × ((out.answer ≡ verdict signed_out) ⊎ (out.answer ≡ verdict switched)))
      ⊎ ((p : SessionPayload) × (q : SessionPayload) × (v : Str) × (out.answer ≡ verdict unchanged)
          × (session_of a now r ≡ ok p)
          × (flow_cookie a.cfg r cookie_pkce_verifier ≡ ok v)
          × Reconciled a now r v p q
          × (out.cookies ≡ sync_clears a ++ write_session a rand q))

  abbrev answer_of : Conclusion → Response
  answer_of c = record {
    cookies = sync_clears a ++ (render a rand c).0;
    answer = verdict (render a rand c).1;
  }

  judge-same :
      (s v : Result Error Str) {q : SessionPayload}
      → judge a now r s v ≡ same_person q
      → (p : SessionPayload) × (w : Str) × (session_of a now r ≡ ok p)
        × (v ≡ ok w)
        × Reconciled a now r w p q
  judge-same (err e) v h = ground arith
  judge-same (ok s) (err e) h = ground arith
  judge-same (ok s) (ok v) h =
      let (p, held, kept) = judge_session-same a now r s v (session_of a now r) h in
      (p, v, held, refl, kept)

  concluded-Handled : (c : Conclusion) → conclusion a now r ≡ c → Handled (answer_of c)
  unfolding conclusion
  concluded-Handled no_answer h = inl (refl, inl refl)
  concluded-Handled nothing_held h = inl (refl, inr (inl refl))
  concluded-Handled grant_keeps h = inl (refl, inr (inr refl))
  concluded-Handled signed_off h = inr (inl (refl, inl refl))
  concluded-Handled other_person h = inr (inl (refl, inr refl))
  concluded-Handled (same_person q) h =
      let (p, v, held, found, kept) = judge-same _ _ h in
      inr (inr (p, q, v, refl, held, found, kept, refl))

  -- Whatever the identity provider, the cookies and the query are, the callback clears its three
  -- flow cookies and then does one of three things: it leaves the session alone and answers
  -- failed, no_session or not_applicable; it removes the session and answers signed_out or
  -- switched; or it answers unchanged and rewrites the session that was read, with no cookie when
  -- it cannot be written: the same person with the same rights, claims and time of authentication,
  -- stamped and with a new expiry. The tokens become those of the exchange with retention, unless
  -- the session was minted from a grant, else they stay, and so does a refresh token when the
  -- exchange brings none; a sid stays unless there was none and the session was not minted from a
  -- grant, when the browser's is recorded.
  pub handle_sync_callback-Handled : Handled (handle_sync_callback a now rand r)
  unfolding handle_sync_callback
  handle_sync_callback-Handled = concluded-Handled (conclusion a now r) refl

  judge-unread :
      (s v : Result Error Str) {e : Error}
      → session_of a now r ≡ err e
      → (judge a now r s v ≡ no_answer) ⊎ (judge a now r s v ≡ nothing_held)
  judge-unread (err d) v h = inl refl
  judge-unread (ok s) (err d) h = inl refl
  judge-unread (ok s) (ok v) h = inr (rw h refl)

  -- Without a session the callback sets no session cookie: it cannot be used to sign in.
  pub handle_sync_callback-mints_nothing :
      {e : Error}
      → session_of a now r ≡ err e
      → ((handle_sync_callback a now rand r).cookies ≡ sync_clears a)
        × (((handle_sync_callback a now rand r).answer ≡ verdict failed)
            ⊎ ((handle_sync_callback a now rand r).answer ≡ verdict no_session))
  unfolding handle_sync_callback conclusion
  handle_sync_callback-mints_nothing h =
      elim (judge-unread (flow_cookie a.cfg r cookie_oidc_state)
        (flow_cookie a.cfg r cookie_pkce_verifier) h) [
          | inl e ↦ rw e (refl, inl refl)
          | inr e ↦ rw e (refl, inr refl)
        ]
