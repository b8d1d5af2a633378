-- ===== src/Login/Answers.antt =====
-- auth.go: what a login callback answers and sets, for a sign-in and for a refusal.
use go_vai_oidc.Prelude.{
  Bool, true, false, not, Option, none, some, List, [], ◌∷◌, ◌++◌, ◌≡◌, refl, ap, sym, ◌⊎◌, inl,
  inr, Result, ok, err, ◌>>=◌, err-injective, err-ne-ok, Result-cases, ok-ne-err, ◌∙◌,
}
use go_vai_oidc.Prelude.Int.{ℤ}
use go_vai_oidc.Prelude.Text.{Str, codes, is_empty}
use go_vai_oidc.Errors.{Error}
use go_vai_oidc.Config.{flow_cookie_name, login}
use go_vai_oidc.Cookie.{SetCookie, Request, cookies_named, unique_cookie}
use go_vai_oidc.User.{User, redirect_target}
use go_vai_oidc.Admission.{admit_identity}
use go_vai_oidc.StepUp.{verify_requested_max_age}
use go_vai_oidc.Idp.{Token, IdToken, exchange, extract_user}
use go_vai_oidc.Auth.{Auth}
use go_vai_oidc.Redirect.{parse_state_cookie, post_login_target, landing_consumer_return_to}
use go_vai_oidc.Session.Payload.{SessionPayload}
use go_vai_oidc.Session.Store.{set_session_cookie}
use go_vai_oidc.Flow.{Answer, redirect, cookie_oidc_state, cookie_pkce_verifier, flow_cookie}
use go_vai_oidc.Login.{
  Refusal, idp_error, state_mismatch, missing_code, exchange_failed, not_admitted, session_not_set,
  max_age_refused, present, require, state_matches, exchanged, is_none, admitted, set_or_refuse,
  SignedIn, login_payload, login_outcome, refusal_cookies, with_return_to, landing_target,
  handle_login_callback, login_clears,
}
use go_vai_oidc.Login.Sound.{login_outcome-Checked}

some_left : {v : Str} {vs : List Str} → ◌≡◌ {A = List Str} (v ∷ vs) [] → ⊥
some_left e = cc

more_left : {u v w : Str} {vs : List Str} → ◌≡◌ {A = List Str} (v ∷ w ∷ vs) (u ∷ []) → ⊥
more_left e = cc

module _ (a : Auth) where
  -- Code whose refusals clear the flow cookies.
  abbrev ClearsOnRefusal : {A : Type 0} → Result Refusal A → Type 0
  ClearsOnRefusal m = (why : Refusal) → m ≡ err why → refusal_cookies a why ≡ login_clears a

  >>=-ClearsOnRefusal :
      {A B : Type 0} (m : Result Refusal A) (k : A → Result Refusal B)
      → ClearsOnRefusal m
      → ((x : A) → ClearsOnRefusal (k x))
      → ClearsOnRefusal (m >>= k)
  >>=-ClearsOnRefusal (ok x) k hm hk why h = hk x why h
  >>=-ClearsOnRefusal (err e) k hm hk why h = hm why (ap err (err-injective h))

  refused_by :
      (A : Type 0) (why : Refusal)
      → refusal_cookies a why ≡ login_clears a
      → ClearsOnRefusal {A = A} (err why)
  refused_by A why clears other h = ap (refusal_cookies a) (sym (err-injective h)) ∙ clears

  passes : {A : Type 0} (x : A) → ClearsOnRefusal (ok x)
  passes x why h = absurd (ok-ne-err h)

  present-ClearsOnRefusal :
      (why : Refusal) (m : Result Error Str) (v : Str) → m ≡ ok v → ClearsOnRefusal (present why m)
  present-ClearsOnRefusal why (ok w) v e = passes w
  present-ClearsOnRefusal why (err d) v e = absurd (err-ne-ok e)

  require-ClearsOnRefusal :
      (b : Bool) (why : Refusal)
      → refusal_cookies a why ≡ login_clears a
      → ClearsOnRefusal (require b why)
  require-ClearsOnRefusal true why clears = passes tt
  require-ClearsOnRefusal false why clears = refused_by _ why clears

  exchanged-ClearsOnRefusal :
      (m : Result Error (Token × Str × IdToken)) → ClearsOnRefusal (exchanged m)
  exchanged-ClearsOnRefusal (ok t) = passes t
  exchanged-ClearsOnRefusal (err e) = refused_by _ exchange_failed refl

  admitted-ClearsOnRefusal : (m : Result Error (Option User)) → ClearsOnRefusal (admitted m)
  admitted-ClearsOnRefusal (ok (some u)) = passes u
  admitted-ClearsOnRefusal (ok none) = refused_by _ (not_admitted []) refl
  admitted-ClearsOnRefusal (err e) = refused_by _ (not_admitted e) refl

  set_or_refuse-ClearsOnRefusal :
      (m : Result Error (List SetCookie)) → ClearsOnRefusal (set_or_refuse m)
  set_or_refuse-ClearsOnRefusal (ok cs) = passes cs
  set_or_refuse-ClearsOnRefusal (err e) = refused_by _ session_not_set refl

  module _ (now : ℤ) (rand : Option Str) (r : Request) where
    -- A flow cookie is not there: the first of the two, or the second beside a single first.
    abbrev pub LacksFlowCookie : Type 0
    LacksFlowCookie =
        (cookies_named (flow_cookie_name a.cfg cookie_oidc_state) r.cookies ≡ [])
        ⊎ ((v : Str) × (cookies_named (flow_cookie_name a.cfg cookie_oidc_state) r.cookies ≡ v ∷ [])
            × (cookies_named (flow_cookie_name a.cfg cookie_pkce_verifier) r.cookies ≡ []))

    -- Where a finished login goes: to the landing, with the way back if there is one, or to the
    -- target of the stored redirect.
    abbrev pub GoesOn : SignedIn → Answer → Type 0
    GoesOn s answer =
        let target = post_login_target a.cfg s.stored_redirect in
        ((redirect_target s.user.landing ≡ none) × (answer ≡ redirect target))
        ⊎ ((url : Str) × (redirect_target s.user.landing ≡ some url)
            × (answer
                ≡ redirect (with_return_to a url (landing_consumer_return_to a.urls a.cfg target))))

    landing-GoesOn :
        (s : SignedIn) (o : Option Str)
        → redirect_target s.user.landing ≡ o
        → GoesOn s (redirect (landing_target a (post_login_target a.cfg s.stored_redirect) o))
    landing-GoesOn s none e = inl (e, refl)
    landing-GoesOn s (some url) e = inr (url, e, refl)

    late-ClearsOnRefusal :
        (sc v : Str)
        → flow_cookie a.cfg r cookie_oidc_state ≡ ok sc
        → flow_cookie a.cfg r cookie_pkce_verifier ≡ ok v
        → ClearsOnRefusal (login_outcome a now rand r)
    unfolding login_outcome
    late-ClearsOnRefusal sc v one other =
        >>=-ClearsOnRefusal _ _ (present-ClearsOnRefusal _ _ sc one) λ state_cookie.
          >>=-ClearsOnRefusal _ _ (present-ClearsOnRefusal _ _ v other) λ verifier.
            >>=-ClearsOnRefusal _ _
              (require-ClearsOnRefusal (is_empty (r.query (codes "error"))) idp_error refl)
              λ answered.
                >>=-ClearsOnRefusal _ _
                  (require-ClearsOnRefusal (state_matches r (parse_state_cookie state_cookie).0)
                    state_mismatch refl)
                  λ same.
                    >>=-ClearsOnRefusal _ _
                      (require-ClearsOnRefusal (not (is_empty (r.query (codes "code"))))
                        missing_code refl)
                      λ coded.
                        >>=-ClearsOnRefusal _ _
                          (exchanged-ClearsOnRefusal
                            (exchange a.idp (r.query (codes "code")) verifier))
                          λ t.
                            >>=-ClearsOnRefusal _ _
                              (require-ClearsOnRefusal
                                (is_none (verify_requested_max_age a.cfg r (who t.2).auth_time))
                                max_age_refused refl)
                              λ recent.
                                >>=-ClearsOnRefusal _ _
                                  (admitted-ClearsOnRefusal
                                    (admit_identity a.cfg login (some (who t.2))))
                                  λ user.
                                    >>=-ClearsOnRefusal _ _
                                      (set_or_refuse-ClearsOnRefusal (
                                        set_session_cookie a.crypto a.session_key rand a.cfg
                                          (paid t user)))
                                      λ cookies. passes (record {
                                        payload = paid t user;
                                        user = user;
                                        stored_redirect = (parse_state_cookie state_cookie).1;
                                        cookies = cookies;
                                      })
      where
        who : IdToken → User
        who t = extract_user a.idp t a.cfg.extra_claims

        paid : Token × Str × IdToken → User → SessionPayload
        paid t user = login_payload a.cfg now t.0 t.1 (who t.2).auth_time user

    missing_state :
        (why : Refusal)
        → cookies_named (flow_cookie_name a.cfg cookie_oidc_state) r.cookies ≡ []
        → login_outcome a now rand r ≡ err why
        → refusal_cookies a why ≡ []
    unfolding login_outcome flow_cookie unique_cookie
    missing_state why none_there h =
        ap (refusal_cookies a) (sym (err-injective (rw none_there at h)))

    missing_verifier :
        (why : Refusal) (v : Str)
        → cookies_named (flow_cookie_name a.cfg cookie_oidc_state) r.cookies ≡ v ∷ []
        → cookies_named (flow_cookie_name a.cfg cookie_pkce_verifier) r.cookies ≡ []
        → login_outcome a now rand r ≡ err why
        → refusal_cookies a why ≡ []
    unfolding login_outcome flow_cookie unique_cookie
    missing_verifier why v one none_there h =
        ap (refusal_cookies a) (sym (err-injective (rw (one, none_there) at h)))

    -- What a refusal does to the flow cookies.
    abbrev pub IsRefused : List SetCookie → Type 0
    IsRefused cs = ((cs ≡ []) × LacksFlowCookie) ⊎ ((cs ≡ login_clears a) × ¬ LacksFlowCookie)

    refusal-IsRefused :
        (why : Refusal) (ss vs : List Str)
        → login_outcome a now rand r ≡ err why
        → cookies_named (flow_cookie_name a.cfg cookie_oidc_state) r.cookies ≡ ss
        → cookies_named (flow_cookie_name a.cfg cookie_pkce_verifier) r.cookies ≡ vs
        → IsRefused (refusal_cookies a why)
    unfolding login_outcome flow_cookie unique_cookie
    refusal-IsRefused why [] vs h es ev = inl (missing_state why es h, inl es)
    refusal-IsRefused why (v ∷ w ∷ ss) vs h es ev = inr (
      ap (refusal_cookies a) (sym (err-injective (rw es at h))),
      λ lacks. elim lacks [
        | inl gone ↦ some_left (sym es ∙ gone)
        | inr (u, one, gone) ↦ more_left (sym es ∙ one)
      ],
    )
    refusal-IsRefused why (v ∷ []) [] h es ev =
        inl (missing_verifier why v es ev h, inr (v, es, ev))
    refusal-IsRefused why (v ∷ []) (x ∷ y ∷ vs) h es ev = inr (
      ap (refusal_cookies a) (sym (err-injective (rw (es, ev) at h))),
      λ lacks. elim lacks [
        | inl gone ↦ some_left (sym es ∙ gone)
        | inr (u, one, gone) ↦ some_left (sym ev ∙ gone)
      ],
    )
    refusal-IsRefused why (v ∷ []) (x ∷ []) h es ev = inr (
      late-ClearsOnRefusal v x (rw es refl) (rw ev refl) why h,
      λ lacks. elim lacks [
        | inl gone ↦ some_left (sym es ∙ gone)
        | inr (u, one, gone) ↦ some_left (sym ev ∙ gone)
      ],
    )

    -- A login callback either signs in: it clears the flow cookies, sets the cookies of the session
    -- and goes on to the landing or the target; or it is refused: it sets no session cookie and goes
    -- to the logout target, and it clears the flow cookies unless one of the two that it needs is
    -- not there, when it sets no cookie at all.
    pub handle_login_callback-cookies :
        let out = handle_login_callback a now rand r in
        ((s : SignedIn) × (login_outcome a now rand r ≡ ok s)
          × (set_session_cookie a.crypto a.session_key rand a.cfg s.payload ≡ ok s.cookies)
          × (out.cookies ≡ login_clears a ++ s.cookies)
          × GoesOn s out.answer)
        ⊎ ((why : Refusal) × (login_outcome a now rand r ≡ err why)
            × (out.answer ≡ redirect a.cfg.logout_redirect)
            × IsRefused out.cookies)
    unfolding handle_login_callback
    handle_login_callback-cookies = elim (Result-cases (login_outcome a now rand r)) [
      | inl (s, h) ↦
          let checked = login_outcome-Checked a now rand r s h in
          inl (s, h, checked.session, rw h refl, rw h (landing-GoesOn s _ refl))
      | inr (why, h) ↦ inr (why, h, rw h refl, rw h (refusal-IsRefused why _ _ h refl refl))
    ]
