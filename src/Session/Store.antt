-- ===== src/Session/Store.antt =====
-- session.go: `setSessionCookie`, `readSessionCookie` and `clearSessionCookie`.
use go_vai_oidc.Prelude.{
  ℕ, zero, suc, ◌||◌, Option, none, some, List, [], ◌∷◌, ◌++◌, ltb, leb, if◌then◌else◌, Result, ok,
  err, ◌>>=◌, or_err, length,
}
use go_vai_oidc.Prelude.Int.{ℤ, pos, negsuc}
use go_vai_oidc.Prelude.Text.{Str, codes, cut_prefix}
use go_vai_oidc.Prelude.Decimal.{itoa, parse_int}
use go_vai_oidc.Errors.{Error, just, session_invalid, no_session}
use go_vai_oidc.Config.{Config, secure_cookie}
use go_vai_oidc.Cookie.{SetCookie, cookie, write_session_cookie, expire_session_cookie}
use go_vai_oidc.Session.Payload.{SessionPayload}
use go_vai_oidc.Session.Crypto.{Crypto, encrypt_session, decrypt_session}
use go_vai_oidc.Session.Chunks.{chunk_string}

abbrev pub max_cookie_value_bytes : ℕ
max_cookie_value_bytes = 3500

abbrev pub max_session_cookie_chunks : ℕ
max_session_cookie_chunks = 8

abbrev pub chunk_count_prefix : Str
chunk_count_prefix = codes "chunked:"

abbrev pub session_chunk_name_sep : Str
session_chunk_name_sep = codes "_"

unfoldable pub chunk_cookie_name : Str → ℕ → Str
unfolding codes itoa
chunk_cookie_name base i = base ++ (session_chunk_name_sep ++ itoa i)

-- The loop that writes the data cookies, from the index `i` on.
unfoldable pub write_chunks : Config → ℤ → ℕ → List Str → List SetCookie
write_chunks cfg exp i [] = []
write_chunks cfg exp i (c ∷ cs) =
    write_session_cookie (chunk_cookie_name cfg.cookie_name i) c cfg.cookie_path exp
      (secure_cookie cfg)
    ∷ write_chunks cfg exp (suc i) cs

-- The two ways to lay an encrypted session out in cookies.
unfoldable pub lay_out : Config → ℤ → Str → Result Error (List SetCookie)
unfolding write_chunks chunk_string
lay_out cfg exp encrypted =
    let chunks = chunk_string encrypted max_cookie_value_bytes in
    if leb (length encrypted) max_cookie_value_bytes
    then ok (
        write_session_cookie cfg.cookie_name encrypted cfg.cookie_path exp (secure_cookie cfg) ∷ [])
    else if ltb max_session_cookie_chunks (length chunks)
    then err (just session_invalid)
    else ok (
        write_session_cookie cfg.cookie_name (chunk_count_prefix ++ itoa (length chunks))
          cfg.cookie_path exp (secure_cookie cfg)
        ∷ write_chunks cfg exp 1 chunks)

-- `setSessionCookie`: the cookies of the session, or an error and none.
unfoldable pub set_session_cookie :
    Crypto → Str → Option Str → Config → SessionPayload → Result Error (List SetCookie)
unfolding lay_out
set_session_cookie c key nonce cfg p = do
  encrypted ← encrypt_session c key nonce p
  lay_out cfg p.exp encrypted

-- The loop that reassembles the data cookies `i`, `i + 1`, … on the rounds left.
unfoldable pub read_chunks : Str → List (Str × Str) → ℕ → ℕ → Result Error Str
read_chunks name cookies i zero = ok []
read_chunks name cookies i (suc left) =
    let rest = read_chunks name cookies (suc i) left in
    elim (cookie (chunk_cookie_name name i) cookies) [
      | none ↦ err (just session_invalid)
      | some v ↦
          if ltb max_cookie_value_bytes (length v)
          then err (just session_invalid)
          else (rest >>= λ more. ok (v ++ more))
    ]

abbrev pub chunk_count : Option ℤ → Result Error ℕ
chunk_count none = err (just session_invalid)
chunk_count (some (negsuc n)) = err (just session_invalid)
chunk_count (some (pos n)) =
    if ltb n 1 || ltb max_session_cookie_chunks n then err (just session_invalid) else ok n

abbrev pub read_header : Str → List (Str × Str) → Str → Option Str → Result Error Str
read_header name cookies encoded none = ok encoded
read_header name cookies encoded (some rest) =
    chunk_count (parse_int rest) >>= λ n. read_chunks name cookies 1 n

-- The encoded session that the base cookie holds or heads.
unfoldable pub reassemble : Str → List (Str × Str) → Str → Result Error Str
reassemble name cookies encoded =
    read_header name cookies encoded (cut_prefix encoded chunk_count_prefix)

-- `readSessionCookie`
unfoldable pub read_session_cookie :
    Crypto → Str → ℤ → Str → List (Str × Str) → Result Error SessionPayload
unfolding reassemble
read_session_cookie c key now name cookies = do
  base ← or_err (cookie name cookies) (just no_session)
  encoded ← reassemble name cookies base
  decrypt_session c key now encoded

-- The loop of `clearSessionCookie` over the indices from `i` on, on the rounds left.
unfoldable pub expire_chunks : Config → ℕ → ℕ → List SetCookie
expire_chunks cfg i zero = []
expire_chunks cfg i (suc left) =
    expire_session_cookie (chunk_cookie_name cfg.cookie_name i) cfg.cookie_path (secure_cookie cfg)
    ∷ expire_chunks cfg (suc i) left

-- `clearSessionCookie`
unfoldable pub clear_session_cookie : Config → List SetCookie
unfolding expire_chunks
clear_session_cookie cfg =
    expire_session_cookie cfg.cookie_name cfg.cookie_path (secure_cookie cfg)
    ∷ expire_chunks cfg 1 max_session_cookie_chunks
