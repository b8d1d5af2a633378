-- ===== src/Script.antt =====
-- sessionsync_script.go: the script of session sync that a browser runs, and the report of a browser
-- that could not; auth.go: the address of a client. The text of the embedded script is a parameter.
pub mod Literals
pub mod Mounts
use go_vai_oidc.Prelude.{
  ℕ, Bool, true, false, ◌&&◌, ◌||◌, not, Option, none, some, List, [], ◌∷◌, ◌++◌, ◌==◌, leb, any,
  if◌then◌else◌, Result, ok, err,
}
use go_vai_oidc.Prelude.Int.{ℤ}
use go_vai_oidc.Prelude.Text.{Str, codes, is_empty, cut, cut_suffix, trim_space}
use go_vai_oidc.Prelude.Replacer.{replace}
use go_vai_oidc.Errors.{Error}
use go_vai_oidc.Cookie.{Request}
use go_vai_oidc.Auth.{Auth}
use go_vai_oidc.Session.Payload.{SessionPayload}
use go_vai_oidc.Flow.{session_of}

-- A whole HTTP answer: its status, the headers that the handler sets, its body.
pub record Page : Type 0 where
  pub status_code : ℕ
  pub headers : List (Str × Str)
  pub body : Str

abbrev pub path_session_sync : Str
path_session_sync = codes "/session/sync"

abbrev pub path_session_sync_script : Str
path_session_sync_script = codes "/session/sync.js"

abbrev pub path_session_sync_blocked : Str
path_session_sync_blocked = codes "/session/sync/blocked"

abbrev pub is_mount_byte : ℕ → Bool
is_mount_byte c =
    (leb 97 c && leb c 122 || leb 65 c && leb c 90 || leb 48 c && leb c 57)
    || (c == 47 || c == 45 || c == 95 || c == 46)

abbrev pub checked_mount : Option Str → Option Str
checked_mount none = none
checked_mount (some mount) = if any (λ c. not (is_mount_byte c)) mount then none else some mount

-- `mountFromScriptPath`
unfoldable pub mount_from_script_path : Str → Option Str
mount_from_script_path p = checked_mount (cut_suffix p path_session_sync_script)

-- What `jsStringLiteral` escapes; the last two are U+2028 and U+2029 in UTF-8.
abbrev pub escapes : List (Str × Str)
escapes =
    (34 ∷ [], codes "\\u0022")
    ∷ (92 ∷ [], codes "\\u005C")
    ∷ (10 ∷ [], codes "\\u000A")
    ∷ (13 ∷ [], codes "\\u000D")
    ∷ (60 ∷ [], codes "\\u003C")
    ∷ (62 ∷ [], codes "\\u003E")
    ∷ (38 ∷ [], codes "\\u0026")
    ∷ (226 ∷ 128 ∷ 168 ∷ [], codes "\\u2028")
    ∷ (226 ∷ 128 ∷ 169 ∷ [], codes "\\u2029")
    ∷ []

abbrev pub quoted : Str → Str
quoted s = 34 ∷ (s ++ 34 ∷ [])

-- `jsStringLiteral`, for a string that is UTF-8.
unfoldable pub js_string_literal : Str → Str
js_string_literal s = quoted (replace escapes s)

abbrev pub no_store : Str × Str
no_store = (codes "Cache-Control", codes "no-store")

abbrev pub script_page : Str → Option Str → Page
script_page source none = record {
  status_code = 500;
  headers =
      (codes "Content-Type", codes "text/plain; charset=utf-8")
      ∷ (codes "X-Content-Type-Options", codes "nosniff")
      ∷ [];
  body = codes "session sync script: unusable mount path\n";
}
script_page source (some mount) = record {
  status_code = 200;
  headers =
      (codes "Content-Type", codes "application/javascript; charset=utf-8")
      ∷ no_store
      ∷ (codes "X-Content-Type-Options", codes "nosniff")
      ∷ [];
  body =
      replace
        ((codes "__VAIOIDC_SYNC_ENDPOINT__", js_string_literal (mount ++ path_session_sync))
          ∷ (
            codes "__VAIOIDC_BLOCKED_ENDPOINT__",
            js_string_literal (mount ++ path_session_sync_blocked),
          )
          ∷ [])
        source;
}

-- `handleSessionSyncScript`, for the path of the request.
unfoldable pub handle_session_sync_script : Str → Str → Page
handle_session_sync_script source path = script_page source (mount_from_script_path path)

abbrev pub first_hop : Str → Option (Str × Str) → Str
first_hop forwarded none = forwarded
first_hop forwarded (some ([], rest)) = forwarded
first_hop forwarded (some (c ∷ s, rest)) = trim_space (c ∷ s)

-- `clientIP`; `remote` is the RemoteAddr of the request.
unfoldable pub client_ip : Str → Request → Str
client_ip remote r =
    let real = r.header (codes "X-Real-IP") in
    let forwarded = r.header (codes "X-Forwarded-For") in
    if not (is_empty real)
    then real
    else if not (is_empty forwarded)
    then first_hop forwarded (cut 44 forwarded)
    else remote

-- The answer to a report, and the address that is logged with it.
pub record Reported : Type 0 where
  pub page : Page
  pub logged : Option Str

abbrev pub report_of : Str → Result Error SessionPayload → Option Str
report_of ip (ok p) = some ip
report_of ip (err e) = none

-- `handleSessionSyncBlocked`
unfoldable pub handle_session_sync_blocked : Auth → ℤ → Str → Request → Reported
handle_session_sync_blocked a now remote r = record {
  page = record { status_code = 204; headers = no_store ∷ []; body = [] };
  logged = report_of (client_ip remote r) (session_of a now r);
}
