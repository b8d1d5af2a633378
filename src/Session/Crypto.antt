-- ===== src/Session/Crypto.antt =====
-- session.go: `encryptSession` and `decryptSession`. JSON, AES-GCM and base64 are parameters; the
-- order of the steps, their failures and the expiry check are the code's.
use go_vai_oidc.Prelude.{
  ℕ, ◌≡◌, Bool, true, false, ◌||◌, Option, some, ◌++◌, arith, ltb, ◌==◌, if◌then◌else◌, Result, ok,
  err, ◌>>=◌, or_err, length, take, drop, take-length-append, drop-length-append, length-append,
  Bool-cases, inl, inr, Option-cases, All, ◌≢◌, err-ne-ok, ok-injective,
}
use go_vai_oidc.Prelude.Int.{ℤ, ltb_ℤ, ◌≤ℤ◌}
use go_vai_oidc.Prelude.Text.{Str}
use go_vai_oidc.Errors.{Error, just, session_invalid, session_expired}
use go_vai_oidc.Session.Payload.{SessionPayload, unix}

-- encoding/json at sessionPayload, crypto/cipher's GCM by key and nonce, base64.RawURLEncoding.
pub record Crypto : Type 0 where
  pub marshal : SessionPayload → Option Str
  pub unmarshal : Str → Option SessionPayload
  pub gcm_seal : Str → Str → Str → Str
  pub gcm_open : Str → Str → Str → Option Str
  pub encode : Str → Str
  pub decode : Str → Option Str

abbrev pub nonce_size : ℕ
nonce_size = 12

-- aes.NewCipher accepts keys for AES-128, AES-192 and AES-256.
abbrev pub is_aes_key : Str → Bool
is_aes_key key = length key == 16 || length key == 24 || length key == 32

abbrev pub new_gcm : Str → Result Error (Unit {0})
new_gcm key = if is_aes_key key then ok tt else err (just session_invalid)

-- `nonce` is what crypto/rand answers, `none` for its error.
unfoldable pub encrypt_session : Crypto → Str → Option Str → SessionPayload → Result Error Str
encrypt_session c key nonce p = do
  plaintext ← or_err (c.marshal p) (just session_invalid)
  gcm ← new_gcm key
  n ← or_err nonce (just session_invalid)
  ok (c.encode (n ++ c.gcm_seal key n plaintext))

abbrev check_expiry : ℤ → SessionPayload → Result Error SessionPayload
check_expiry now p = if ltb_ℤ p.exp (unix now) then err (just session_expired) else ok p

abbrev split_nonce : Str → Result Error (Str × Str)
split_nonce sealed =
    if ltb (length sealed) nonce_size
    then err (just session_invalid)
    else ok (take nonce_size sealed, drop nonce_size sealed)

unfoldable pub decrypt_session : Crypto → Str → ℤ → Str → Result Error SessionPayload
decrypt_session c key now encoded = do
  sealed ← or_err (c.decode encoded) (just session_invalid)
  gcm ← new_gcm key
  parts ← split_nonce sealed
  plaintext ← or_err (c.gcm_open key parts.0 parts.1) (just session_invalid)
  p ← or_err (c.unmarshal plaintext) (just session_invalid)
  check_expiry now p

-- What the code relies on of the three libraries, for one payload `p` under one key: each reader
-- inverts its writer, and base64url text does not hold the colon of a chunk header.
pub record IsFaithful (c : Crypto) (key : Str) (p : SessionPayload) : Type 0 where
  pub unmarshal-marshal : (s : Str) → c.marshal p ≡ some s → c.unmarshal s ≡ some p
  pub open-seal : (nonce s : Str) → c.gcm_open key nonce (c.gcm_seal key nonce s) ≡ some s
  pub decode-encode : (s : Str) → c.decode (c.encode s) ≡ some s
  pub encode-no_colon : (s : Str) → All (λ b. b ≢ b':') (c.encode s)

split_nonce-append :
    (nonce s : Str) → length nonce ≡ nonce_size → split_nonce (nonce ++ s) ≡ ok (nonce, s)
split_nonce-append nonce s e =
    let long : ltb (length (nonce ++ s)) nonce_size ≡ false =
      ground (arith, length-append nonce s, e) in
    rw (long, ← e, take-length-append nonce s, drop-length-append nonce s)

-- What a successful encryption has done.
pub encrypt_session-ok :
    (c : Crypto) (key nonce : Str) (p : SessionPayload) {encoded : Str}
    → encrypt_session c key (some nonce) p ≡ ok encoded
    → (s : Str) × (c.marshal p ≡ some s)
      × (is_aes_key key ≡ true)
      × (c.encode (nonce ++ c.gcm_seal key nonce s) ≡ encoded)
unfolding encrypt_session
encrypt_session-ok c key nonce p h = elim (Option-cases (c.marshal p)) [
  | inl failed ↦ absurd (err-ne-ok (rw failed at h))
  | inr (s, e) ↦ elim (Bool-cases (is_aes_key key)) [
    | inl good ↦ (s, e, good, ok-injective (rw (e, good) at h))
    | inr bad ↦ absurd (err-ne-ok (rw (e, bad) at h))
  ]
]

-- A payload that was encrypted is decrypted unchanged until it expires.
pub decrypt-encrypt :
    (c : Crypto) (key nonce : Str) (p : SessionPayload) (now : ℤ) {encoded : Str}
    → IsFaithful c key p
    → length nonce ≡ nonce_size
    → unix now ≤ℤ p.exp
    → encrypt_session c key (some nonce) p ≡ ok encoded
    → decrypt_session c key now encoded ≡ ok p
unfolding decrypt_session
decrypt-encrypt c key nonce p now {encoded} law size live h =
    let (s, e, good, same) = encrypt_session-ok c key nonce p h in
    let fresh : ltb_ℤ p.exp (unix now) ≡ false = ground arith in
    rw (
      ← same,
      law.decode-encode,
      good,
      split_nonce-append nonce (c.gcm_seal key nonce s) size,
      law.open-seal,
      law.unmarshal-marshal s e,
      fresh,
    )
