-- ===== src/Session/RoundTrip.antt =====
-- session.go: reading back what was written.
use go_vai_oidc.Prelude.{
  ℕ, suc, ◌≤◌, ◌≡◌, refl, sym, ◌∙◌, ◌≢◌, none, some, List, [], ◌∷◌, ◌++◌, inl, inr, arith, ltb, leb,
  ok, Bool-cases, length, concat, All, err-ne-ok, ok-injective, >>=-eq-ok, subst,
}
use mathlib.Core.List.{append-nil}
use go_vai_oidc.Prelude.Int.{ℤ, ◌<ℤ◌}
use go_vai_oidc.Prelude.Text.{Str, codes, cut_prefix, cut_prefix-append, cut_prefix-none}
use go_vai_oidc.Prelude.Decimal.{itoa, parse_int-itoa, itoa-injective}
use go_vai_oidc.Config.{Config, secure_cookie}
use go_vai_oidc.Cookie.{SetCookie, cookie, write_session_cookie}
use go_vai_oidc.Cookie.Browser.{Jar, store, receive, Avoids, cookie-store_live, cookie-receive_ne}
use go_vai_oidc.Session.Payload.{SessionPayload, unix}
use go_vai_oidc.Session.Crypto.{Crypto, IsFaithful, nonce_size, encrypt_session, decrypt_session}
use go_vai_oidc.Session.Crypto.{decrypt-encrypt, encrypt_session-ok}
use go_vai_oidc.Session.Chunks.{
  chunk_string, concat-chunk_string, chunk_string-fits, chunk_string-count,
}
use go_vai_oidc.Session.Store.{
  max_cookie_value_bytes, max_session_cookie_chunks, chunk_count_prefix, session_chunk_name_sep,
  chunk_cookie_name, write_chunks, lay_out, set_session_cookie, read_chunks, reassemble,
  read_session_cookie,
}

append_cancel : (s : Str) {t u : Str} → s ++ t ≡ s ++ u → t ≡ u
append_cancel [] e = e
append_cancel (c ∷ s) e = append_cancel s (cc)

-- Distinct indices name distinct cookies, and none of them the base cookie.
pub chunk_cookie_name-injective :
    (base : Str) (i j : ℕ) → chunk_cookie_name base i ≡ chunk_cookie_name base j → i ≡ j
unfolding chunk_cookie_name
chunk_cookie_name-injective base i j e =
    itoa-injective i j (append_cancel session_chunk_name_sep (append_cancel base e))

pub chunk_cookie_name-ne-base : (base : Str) (i : ℕ) → chunk_cookie_name base i ≢ base
unfolding chunk_cookie_name
chunk_cookie_name-ne-base base i e =
    let gone : session_chunk_name_sep ++ itoa i ≡ [] =
      append_cancel base (e ∙ sym (append-nil base)) in
    cc

read_chunks-suc :
    (name : Str) (cookies : Jar) (i left : ℕ) (v more : Str)
    → cookie (chunk_cookie_name name i) cookies ≡ some v
    → length v ≤ max_cookie_value_bytes
    → read_chunks name cookies (suc i) left ≡ ok more
    → read_chunks name cookies i (suc left) ≡ ok (v ++ more)
unfolding read_chunks
read_chunks-suc name cookies i left v more held fits rest = ground arith

module _ (cfg : Config) (exp : ℤ) where
  write_chunks-Avoids :
      (i : ℕ) (cs : List Str) (name : Str)
      → ((j : ℕ) → i ≤ j → name ≢ chunk_cookie_name cfg.cookie_name j)
      → Avoids name (write_chunks cfg exp i cs)
  unfolding write_chunks
  write_chunks-Avoids i [] name h = tt
  write_chunks-Avoids i (c ∷ cs) name h =
      (h i (omega arith), write_chunks-Avoids (suc i) cs name (λ j le. h j (omega arith)))

  module _ (now : ℤ) (live : now <ℤ exp) where
    -- The reader's loop puts together what the writer's loop wrote.
    read_chunks-write_chunks :
        (i : ℕ) (cs : List Str) (jar : Jar)
        → All (λ c. length c ≤ max_cookie_value_bytes) cs
        → read_chunks cfg.cookie_name (receive now (write_chunks cfg exp i cs) jar) i (length cs)
          ≡ ok (concat cs)
    unfolding write_chunks receive
    read_chunks-write_chunks i [] jar h = unfold read_chunks in refl
    read_chunks-write_chunks i (c ∷ cs) jar (fits, h) =
        let name = chunk_cookie_name cfg.cookie_name i in
        let w = write_session_cookie name c cfg.cookie_path exp (secure_cookie cfg) in
        let held : cookie name (receive now (write_chunks cfg exp (suc i) cs) (store now w jar))
            ≡ some c =
          cookie-receive_ne now name (write_chunks cfg exp (suc i) cs) (store now w jar) (
            write_chunks-Avoids (suc i) cs name
              (λ j le e. absurd (omega (arith, chunk_cookie_name-injective cfg.cookie_name i j e))))
          ∙ cookie-store_live now w jar (ground arith) in
        read_chunks-suc cfg.cookie_name _ i (length cs) c (concat cs) held fits
          (read_chunks-write_chunks (suc i) cs (store now w jar) h)

header-reassemble :
    (name : Str) (cookies : Jar) (n : ℕ) {encrypted : Str}
    → 1 ≤ n
    → n ≤ max_session_cookie_chunks
    → read_chunks name cookies 1 n ≡ ok encrypted
    → reassemble name cookies (chunk_count_prefix ++ itoa n) ≡ ok encrypted
unfolding reassemble
header-reassemble name cookies n nonempty few parts =
    rw (cut_prefix-append chunk_count_prefix (itoa n), parse_int-itoa n (omega arith))
      (ground arith)

pub read_session_cookie-ok :
    (c : Crypto) (key : Str) (now : ℤ) (name : Str) (cookies : Jar) {base encoded : Str}
    {p : SessionPayload}
    → cookie name cookies ≡ some base
    → reassemble name cookies base ≡ ok encoded
    → decrypt_session c key now encoded ≡ ok p
    → read_session_cookie c key now name cookies ≡ ok p
unfolding read_session_cookie
read_session_cookie-ok c key now name cookies held whole opened = rw (held, whole) opened

abbrev pub HoldsNoColon : Str → Type 0
HoldsNoColon = All (λ b. b ≢ b':')

-- What `lay_out` writes, `reassemble` reads.
module _ (cfg : Config) (exp now : ℤ) (live : now <ℤ exp) (encrypted : Str) (jar : Jar) where
  abbrev ReadsBack : List SetCookie → Type 0
  ReadsBack cs =
      let held = receive now cs jar in
      (base : Str) × (cookie cfg.cookie_name held ≡ some base)
      × (reassemble cfg.cookie_name held base ≡ ok encrypted)

  single-ReadsBack :
      HoldsNoColon encrypted
      → ReadsBack (
          write_session_cookie cfg.cookie_name encrypted cfg.cookie_path exp (secure_cookie cfg)
          ∷ [])
  unfolding receive reassemble codes
  single-ReadsBack plain =
      let whole : cut_prefix encrypted chunk_count_prefix ≡ none =
        cut_prefix-none encrypted (codes "chunked") b':' [] plain in
      (encrypted, cookie-store_live now _ jar (ground arith), rw whole)

  chunked-ReadsBack :
      (chunks : List Str)
      → concat chunks ≡ encrypted
      → All (λ c. length c ≤ max_cookie_value_bytes) chunks
      → 1 ≤ length chunks
      → length chunks ≤ max_session_cookie_chunks
      → ReadsBack (
          write_session_cookie cfg.cookie_name
            (chunk_count_prefix ++ itoa (length chunks))
            cfg.cookie_path
            exp
            (secure_cookie cfg)
          ∷ write_chunks cfg exp 1 chunks)
  unfolding receive
  chunked-ReadsBack chunks whole fits nonempty few =
      let header = chunk_count_prefix ++ itoa (length chunks) in
      let w = write_session_cookie cfg.cookie_name header cfg.cookie_path exp (secure_cookie cfg) in
      let parts = read_chunks-write_chunks cfg exp now live 1 chunks (store now w jar) fits in
      (
        header,
        cookie-receive_ne now cfg.cookie_name (write_chunks cfg exp 1 chunks) (store now w jar) (
              write_chunks-Avoids cfg exp 1 chunks cfg.cookie_name
                (λ j le e. chunk_cookie_name-ne-base cfg.cookie_name j (sym e)))
            ∙ cookie-store_live now w jar (ground arith),
        header-reassemble cfg.cookie_name _ (length chunks) nonempty few (rw whole at parts),
      )

  lay_out-ReadsBack :
      {cs : List SetCookie}
      → HoldsNoColon encrypted
      → lay_out cfg exp encrypted ≡ ok cs
      → ReadsBack cs
  unfolding lay_out
  lay_out-ReadsBack {cs} plain e =
      let chunks = chunk_string encrypted max_cookie_value_bytes in
      elim (Bool-cases (leb (length encrypted) max_cookie_value_bytes)) [
        | inl small ↦ subst ReadsBack (ok-injective (rw small at e)) (single-ReadsBack plain)
        | inr large ↦ elim (Bool-cases (ltb max_session_cookie_chunks (length chunks))) [
          | inl many ↦ absurd (err-ne-ok (rw (large, many) at e))
          | inr few ↦
              let size =
                chunk_string-count encrypted max_cookie_value_bytes (omega arith) (ground arith) in
              subst ReadsBack (ok-injective (rw (large, few) at e)) (
                chunked-ReadsBack chunks (concat-chunk_string encrypted max_cookie_value_bytes)
                  (chunk_string-fits encrypted max_cookie_value_bytes (omega arith))
                  (ground (arith, size)) (ground arith))
        ]
      ]

-- A session that was written and has not expired is read back whole: from one cookie or from
-- several, under any cookies that the browser already held, stale data cookies of a larger session
-- included. The codec laws and a nonce of the right size are assumed.
pub read-set_session_cookie :
    (c : Crypto) (key nonce : Str) (cfg : Config) (p : SessionPayload) (now : ℤ) (jar : Jar)
    {cs : List SetCookie}
    → IsFaithful c key p
    → length nonce ≡ nonce_size
    → unix now <ℤ p.exp
    → set_session_cookie c key (some nonce) cfg p ≡ ok cs
    → read_session_cookie c key now cfg.cookie_name (receive (unix now) cs jar) ≡ ok p
unfolding set_session_cookie
read-set_session_cookie c key nonce cfg p now jar {cs} law size live h =
    let (encrypted, sealed, laid) = >>=-eq-ok (encrypt_session c key (some nonce) p) _ h in
    let (s, marshalled, good, same) = encrypt_session-ok c key nonce p sealed in
    let (base, held, whole) =
      lay_out-ReadsBack cfg p.exp (unix now) live encrypted jar
        (subst HoldsNoColon same (law.encode-no_colon _)) laid in
    read_session_cookie-ok c key now cfg.cookie_name _ held whole
      (decrypt-encrypt c key nonce p now law size (omega arith) sealed)
