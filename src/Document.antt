-- ===== src/Document.antt =====
-- sessionsync.go: the document that carries a verdict to the page around it, and the origin that a
-- consumer's policy has to name. html.EscapeString is written out.
pub mod Verdict
use go_vai_oidc.Prelude.{
  ℕ, Bool, true, false, Option, none, some, List, [], ◌∷◌, ◌++◌, if◌then◌else◌,
}
use go_vai_oidc.Prelude.Text.{Str, codes, is_empty}
use go_vai_oidc.Prelude.Replacer.{replace}
use go_vai_oidc.Flow.{
  SyncResult, unchanged, switched, signed_out, no_session, disabled, failed, not_applicable,
}
use go_vai_oidc.Redirect.{absolute}
use go_vai_oidc.Auth.{Auth}
use go_vai_oidc.Script.{Page, no_store}

-- The string of a `SessionSyncResult`.
unfoldable pub result_text : SyncResult → Str
result_text unchanged = codes "unchanged"
result_text switched = codes "switched"
result_text signed_out = codes "signed_out"
result_text no_session = codes "no_session"
result_text disabled = codes "disabled"
result_text failed = codes "error"
result_text not_applicable = codes "not_applicable"

abbrev pub html_escapes : List (Str × Str)
html_escapes =
    (38 ∷ [], codes "&amp;")
    ∷ (39 ∷ [], codes "&#39;")
    ∷ (60 ∷ [], codes "&lt;")
    ∷ (62 ∷ [], codes "&gt;")
    ∷ (34 ∷ [], codes "&#34;")
    ∷ []

-- html.EscapeString
unfoldable pub escape_string : Str → Str
escape_string s = replace html_escapes s

-- `syncNonce`, over the bytes that crypto/rand answers; `encode` is base64.RawURLEncoding.
unfoldable pub sync_nonce : (Str → Str) → Option Str → Option Str
sync_nonce encode none = none
sync_nonce encode (some bytes) = some (encode bytes)

abbrev pub or_empty : Option Str → Str
or_empty none = []
or_empty (some s) = s

abbrev pub quote : Str
quote = 34 ∷ []

abbrev pub content_security_policy : Str → Str
content_security_policy nonce =
    codes "default-src 'none'; script-src 'nonce-"
    ++ (nonce ++ codes "'; base-uri 'none'; form-action 'none'; frame-ancestors 'self'")

abbrev pub sync_headers : Str → List (Str × Str)
sync_headers nonce =
    no_store
    ∷ (codes "X-Frame-Options", codes "SAMEORIGIN")
    ∷ (if is_empty nonce
        then (codes "Content-Type", codes "text/html; charset=utf-8") ∷ []
        else (codes "Content-Security-Policy", content_security_policy nonce)
          ∷ (codes "Content-Type", codes "text/html; charset=utf-8")
          ∷ [])

abbrev pub post_message : Str → Str
post_message safe =
    codes "try{window.parent.postMessage({source:\"vaioidc\",type:\"session-sync\",result:\""
    ++ (safe ++ codes "\"},window.location.origin);}catch(e){}")

abbrev pub opening : Str
opening = codes "<!doctype html><html "

abbrev pub result_attribute : Str
result_attribute = codes "data-vaioidc-sync-result=\""

abbrev pub head_text : Str
head_text = codes "><head><meta charset=\"utf-8\"><title>session sync</title>"

abbrev pub script_tag : Str
script_tag = codes "<script nonce=\""

abbrev pub script_end : Str
script_end = codes "</script>"

abbrev pub closing : Str
closing = codes "</head><body></body></html>"

abbrev pub sync_script : Str → Str → Str
sync_script nonce safe =
    if is_empty nonce
    then []
    else script_tag ++ (escape_string nonce ++ (codes "\">" ++ (post_message safe ++ script_end)))

abbrev pub sync_body : Str → Str → Str
sync_body nonce safe =
    opening
    ++ (result_attribute ++ (safe ++ (quote ++ (head_text ++ (sync_script nonce safe ++ closing)))))

-- `writeSyncResult`, with what `syncNonce` answers.
unfoldable pub write_sync_result : Option Str → SyncResult → Page
write_sync_result minted result = record {
  status_code = 200;
  headers = sync_headers (or_empty minted);
  body = sync_body (or_empty minted) (escape_string (result_text result));
}

-- `Auth.AuthorizationOrigin`; an Auth that New built has a provider.
unfoldable pub authorization_origin : Auth → Str
authorization_origin a =
    if is_empty a.idp.authorization_endpoint
    then []
    else absolute (a.urls.origin a.idp.authorization_endpoint) []
