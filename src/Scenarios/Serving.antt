-- ===== src/Scenarios/Serving.antt =====
-- The flight group, the script of session sync and the verdict document, on concrete input.
use mathlib.Core.List.{Memᴰ}
use go_vai_oidc.Prelude.{
  ℕ, ◌*◌, ◌≡◌, ◌≢◌, ◌↔◌, refl, true, false, Option, none, some, List, [], ◌∷◌, ◌++◌, arith,
}
use go_vai_oidc.Prelude.Int.{pos, ◌+ℤ◌}
use go_vai_oidc.Prelude.Text.{Str, codes, contains}
use go_vai_oidc.Session.Payload.{second}
use go_vai_oidc.Flight.{Event, arrive, land}
use go_vai_oidc.Flight.Board.{observed}
use go_vai_oidc.Script.{handle_session_sync_script}
use go_vai_oidc.Script.Mounts.{IsMounted, AreSkipped, drives, handle_session_sync_script_iff}
use go_vai_oidc.Flow.{switched}
use go_vai_oidc.Redirect.Safe.{Holds}
use go_vai_oidc.Document.{write_sync_result, result_attribute, result_text, quote}
use go_vai_oidc.Document.Verdict.{Carries, write_sync_result-Carries}
use go_vai_oidc.Scenarios.World.{noon}

abbrev a_minute : List (Event ℕ)
a_minute =
    arrive noon (codes "k")
    ∷ land (noon +ℤ pos second) (codes "k") 7
    ∷ arrive (noon +ℤ pos (60 * second)) (codes "other")
    ∷ []

forgotten_after_a_minute : observed a_minute (codes "k") none ≡ none
unfolding go_vai_oidc.Prelude.Text.str_eq codes go_vai_oidc.Prelude.Int.◌-ℤ◌ ◌+ℤ◌
forgotten_after_a_minute = refl

abbrev source : Str
source = codes "fetch(__VAIOIDC_SYNC_ENDPOINT__)"

handle_session_sync_script_iff_example :
    ((handle_session_sync_script source (codes "/auth/session/sync.js")).status_code ≡ 200) ↔ (
      (mount : Str) × IsMounted (codes "/auth/session/sync.js") mount
      × ((handle_session_sync_script source (codes "/auth/session/sync.js")).body
          ≡ drives source mount)
      × AreSkipped (codes "/auth/session/sync.js") mount)
handle_session_sync_script_iff_example =
    handle_session_sync_script_iff source (codes "/auth/session/sync.js")

script_of_the_mount :
    (handle_session_sync_script source (codes "/auth/session/sync.js")).body
    ≡ codes "fetch(\"/auth/session/sync\")"
unfolding codes handle_session_sync_script go_vai_oidc.Script.mount_from_script_path
    go_vai_oidc.Prelude.Text.cut_suffix go_vai_oidc.Prelude.Replacer.replace_from
    go_vai_oidc.Prelude.Replacer.replacement go_vai_oidc.Prelude.Text.has_prefix
    go_vai_oidc.Script.js_string_literal
script_of_the_mount = refl

write_sync_result-Carries_example :
    Carries (codes "bm9uY2U") switched
    × Holds
        (write_sync_result none switched).body
        (result_attribute ++ (result_text switched ++ quote))
    × (contains (write_sync_result none switched).body (codes "<script") ≡ false)
    × ((policy : Str)
        → ¬ Memᴰ
            (codes "Content-Security-Policy", policy)
            (write_sync_result none switched).headers)
unfolding codes
write_sync_result-Carries_example =
    write_sync_result-Carries (codes "bm9uY2U") switched (λ e. cc) (ground arith)
