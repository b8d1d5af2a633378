-- ===== src/Document/Verdict.antt =====
-- sessionsync.go: what a page finds in the verdict document.
use mathlib.Core.List.{Memᴰ, append_assoc}
use go_vai_oidc.Prelude.{
  ℕ, ◌≡◌, refl, ◌≢◌, Bool, true, false, none, some, [], ◌∷◌, ◌++◌, arith, All, ap,
}
use go_vai_oidc.Prelude.Text.{Str, codes, is_empty, has_prefix, contains, str_eq, str_eq_iff}
use go_vai_oidc.Prelude.Replacer.{replacement, replace_from, replace-none}
use go_vai_oidc.Flow.{
  SyncResult, unchanged, switched, signed_out, no_session, disabled, failed, not_applicable,
}
use go_vai_oidc.Redirect.Safe.{Holds}
use go_vai_oidc.Document.{
  result_text, html_escapes, escape_string, content_security_policy, post_message, quote, sync_body,
  sync_headers, sync_script, opening, result_attribute, head_text, script_tag, script_end, closing,
  write_sync_result,
}

-- A byte of base64url.
abbrev pub IsUrlByte : ℕ → Type 0
IsUrlByte c = (c ≢ 38) × (c ≢ 39) × (c ≢ 60) × (c ≢ 62) × (c ≢ 34)

escape_free : (c : ℕ) (s : Str) → IsUrlByte c → replacement html_escapes (c ∷ s) ≡ none
unfolding replacement has_prefix
escape_free c s h = ground arith

escape_string-plain : (s : Str) → All IsUrlByte s → escape_string s ≡ s
unfolding escape_string
escape_string-plain s h = replace-none html_escapes IsUrlByte s escape_free h

result_text-plain : (result : SyncResult) → escape_string (result_text result) ≡ result_text result
unfolding result_text codes
result_text-plain unchanged = escape_string-plain _ (ground arith)
result_text-plain switched = escape_string-plain _ (ground arith)
result_text-plain signed_out = escape_string-plain _ (ground arith)
result_text-plain no_session = escape_string-plain _ (ground arith)
result_text-plain disabled = escape_string-plain _ (ground arith)
result_text-plain failed = escape_string-plain _ (ground arith)
result_text-plain not_applicable = escape_string-plain _ (ground arith)

-- The document says a verdict where a page can read it, and sends it by a script exactly under the
-- policy that admits that script.
pub record Carries (nonce : Str) (result : SyncResult) : Type 0 where
  pub marked :
      Holds
        (write_sync_result (some nonce) result).body
        (result_attribute ++ (result_text result ++ quote))
  pub sends :
      Holds
        (write_sync_result (some nonce) result).body
        (script_tag ++ (nonce ++ (codes "\">" ++ post_message (result_text result))))
  pub admitted :
      Memᴰ
        (codes "Content-Security-Policy", content_security_policy nonce)
        (write_sync_result (some nonce) result).headers

marked_in :
    (nonce : Str) (result : SyncResult)
    → Holds
        (sync_body nonce (escape_string (result_text result)))
        (result_attribute ++ (result_text result ++ quote))
marked_in nonce result = (
  opening,
  head_text ++ (sync_script nonce (escape_string (result_text result)) ++ closing),
  rw (result_text-plain result) (simp append_assoc),
)

sent_in :
    (nonce : Str) (result : SyncResult)
    → is_empty nonce ≡ false
    → All IsUrlByte nonce
    → Holds
        (sync_body nonce (escape_string (result_text result)))
        (script_tag ++ (nonce ++ (codes "\">" ++ post_message (result_text result))))
sent_in nonce result full url = (
  opening ++ (result_attribute ++ (result_text result ++ (quote ++ head_text))),
  script_end ++ closing,
  rw (result_text-plain result, full, escape_string-plain nonce url) (simp append_assoc),
)

full_of : (s : Str) → s ≢ [] → is_empty s ≡ false
full_of [] h = absurd (h refl)
full_of (c ∷ s) h = refl

scriptless :
    (result : SyncResult)
    → contains (sync_body [] (escape_string (result_text result))) (codes "<script") ≡ false
unfolding result_text codes contains escape_string replace_from replacement has_prefix
scriptless unchanged = refl
scriptless switched = refl
scriptless signed_out = refl
scriptless no_session = refl
scriptless disabled = refl
scriptless failed = refl
scriptless not_applicable = refl

other_name : {s t : Str} → s ≡ t → str_eq s t ≡ false → ⊥
other_name {s} {t} e h = apart ((str_eq_iff s t).1 e) h
  where
    apart : {b : Bool} → b ≡ true → b ≡ false → ⊥
    apart p q = cc

no_policy : (policy : Str) → ¬ Memᴰ (codes "Content-Security-Policy", policy) (sync_headers [])
unfolding str_eq codes
no_policy policy (Memᴰ.head e) = other_name (ap (λ h. h.0) e) refl
no_policy policy (Memᴰ.tail (Memᴰ.head e)) = other_name (ap (λ h. h.0) e) refl
no_policy policy (Memᴰ.tail (Memᴰ.tail (Memᴰ.head e))) = other_name (ap (λ h. h.0) e) refl
no_policy policy (Memᴰ.tail (Memᴰ.tail (Memᴰ.tail m))) = elim m [ ]

-- A verdict document with a nonce carries its verdict; one without a nonce still says the verdict in
-- its attribute, and has neither script nor policy.
pub write_sync_result-Carries :
    (nonce : Str) (result : SyncResult)
    → nonce ≢ []
    → All IsUrlByte nonce
    → Carries nonce result
      × Holds
          (write_sync_result none result).body
          (result_attribute ++ (result_text result ++ quote))
      × (contains (write_sync_result none result).body (codes "<script") ≡ false)
      × ((policy : Str)
          → ¬ Memᴰ
              (codes "Content-Security-Policy", policy)
              (write_sync_result none result).headers)
unfolding write_sync_result
write_sync_result-Carries nonce result some_nonce url =
    let full = full_of nonce some_nonce in
    (
      record {
        marked = marked_in nonce result;
        sends = sent_in nonce result full url;
        admitted = rw full (Memᴰ.tail (Memᴰ.tail (Memᴰ.head refl)));
      },
      marked_in [] result,
      scriptless result,
      λ policy. no_policy policy,
    )
