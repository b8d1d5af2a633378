-- ===== src/Session/Clear.antt =====
-- session.go: what `clearSessionCookie` leaves in the browser.
use go_vai_oidc.Prelude.{ℕ, zero, suc, ◌+◌, ◌≤◌, ◌<◌, ◌≡◌, refl, sym, ◌∙◌, ◌≢◌, none, arith, err}
use go_vai_oidc.Prelude.Int.{ℤ}
use go_vai_oidc.Prelude.Text.{Str}
use go_vai_oidc.Errors.{just, no_session}
use go_vai_oidc.Config.{Config, secure_cookie}
use go_vai_oidc.Cookie.{cookie, expire_session_cookie}
use go_vai_oidc.Cookie.Browser.{
  Jar, store, receive, Avoids, cookie-store_dead, cookie-store_ne, cookie-receive_ne,
}
use go_vai_oidc.Session.Crypto.{Crypto}
use go_vai_oidc.Session.Store.{
  max_session_cookie_chunks, chunk_cookie_name, expire_chunks, clear_session_cookie,
  read_session_cookie,
}
use go_vai_oidc.Session.RoundTrip.{chunk_cookie_name-injective, chunk_cookie_name-ne-base}

module _ (cfg : Config) (now : ℤ) where
  expire_chunks-Avoids :
      (i left : ℕ) (name : Str)
      → ((j : ℕ) → i ≤ j → name ≢ chunk_cookie_name cfg.cookie_name j)
      → Avoids name (expire_chunks cfg i left)
  unfolding expire_chunks
  expire_chunks-Avoids i zero name h = tt
  expire_chunks-Avoids i (suc left) name h =
      (h i (omega arith), expire_chunks-Avoids (suc i) left name (λ j le. h j (omega arith)))

  cookie-expire_chunks :
      (i left k : ℕ) (jar : Jar)
      → k < left
      → cookie
          (chunk_cookie_name cfg.cookie_name (i + k))
          (receive now (expire_chunks cfg i left) jar)
        ≡ none
  unfolding expire_chunks receive
  cookie-expire_chunks i zero k jar h = elim h [ ]
  cookie-expire_chunks i (suc left) zero jar h =
      let w =
        expire_session_cookie (chunk_cookie_name cfg.cookie_name i) cfg.cookie_path
          (secure_cookie cfg) in
      let same : i + zero ≡ i = omega arith in
      rw same (
        cookie-receive_ne now (chunk_cookie_name cfg.cookie_name i) (expire_chunks cfg (suc i) left)
          (store now w jar)
          (expire_chunks-Avoids (suc i) left (chunk_cookie_name cfg.cookie_name i)
            (λ j le e. absurd (omega (arith, chunk_cookie_name-injective cfg.cookie_name i j e))))
        ∙ cookie-store_dead now w jar refl)
  cookie-expire_chunks i (suc left) (suc k) jar h =
      let same : i + suc k ≡ suc i + k = omega arith in
      rw same (cookie-expire_chunks (suc i) left k _ (omega arith))

  pub clear_session_cookie-no_session :
      (c : Crypto) (key : Str) (at : ℤ) (jar : Jar)
      → read_session_cookie c key at cfg.cookie_name (receive now (clear_session_cookie cfg) jar)
        ≡ err (just no_session)
  unfolding clear_session_cookie receive read_session_cookie
  clear_session_cookie-no_session c key at jar =
      let w = expire_session_cookie cfg.cookie_name cfg.cookie_path (secure_cookie cfg) in
      let cs = expire_chunks cfg 1 max_session_cookie_chunks in
      let gone : cookie cfg.cookie_name (receive now cs (store now w jar)) ≡ none =
        cookie-receive_ne now cfg.cookie_name cs (store now w jar) (
          expire_chunks-Avoids 1 max_session_cookie_chunks cfg.cookie_name
            (λ j le e. chunk_cookie_name-ne-base cfg.cookie_name j (sym e)))
        ∙ cookie-store_dead now w jar refl in
      rw gone

  -- Signing out leaves the browser neither the base cookie nor any data cookie that a session can
  -- have, so no session is read from it; a cookie of any other name stays as it was.
  pub clear_session_cookie-empties :
      (c : Crypto) (key : Str) (at : ℤ) (jar : Jar) (k : ℕ) (name : Str)
      → k < max_session_cookie_chunks
      → name ≢ cfg.cookie_name
      → ((j : ℕ) → name ≢ chunk_cookie_name cfg.cookie_name j)
      → let left = receive now (clear_session_cookie cfg) jar in
        (read_session_cookie c key at cfg.cookie_name left ≡ err (just no_session))
        × (cookie (chunk_cookie_name cfg.cookie_name (1 + k)) left ≡ none)
        × (cookie name left ≡ cookie name jar)
  unfolding clear_session_cookie receive
  clear_session_cookie-empties c key at jar k name h ne nj =
      let w = expire_session_cookie cfg.cookie_name cfg.cookie_path (secure_cookie cfg) in
      let cs = expire_chunks cfg 1 max_session_cookie_chunks in
      (
        clear_session_cookie-no_session c key at jar,
        cookie-expire_chunks 1 max_session_cookie_chunks k (store now w jar) h,
        cookie-receive_ne now name cs (store now w jar)
              (expire_chunks-Avoids 1 max_session_cookie_chunks name (λ j le. nj j))
            ∙ cookie-store_ne now name w jar ne,
      )
