-- ===== src/Script/Mounts.antt =====
-- sessionsync_script.go: the mount that a script is served for; auth.go: the routes of that mount.
use mathlib.Core.List.{Memᴰ}
use go_vai_oidc.Prelude.{
  ℕ, suc, ◌≡◌, refl, ◌≢◌, ◌↔◌, true, false, not, Option, none, some, [], ◌∷◌, ◌++◌, arith, All, ap,
  some-eq, inl, inr, Bool-cases, length, length-append, any, subst,
}
use go_vai_oidc.Prelude.Text.{
  Str, codes, str_eq, str_eq_iff, str_eq_self, str_eq-ne, cut_suffix, before_suffix,
}
use go_vai_oidc.Prelude.Replacer.{replace}
use go_vai_oidc.Setup.Routes.{skip_paths_with_prefix}
use go_vai_oidc.Script.{
  is_mount_byte, checked_mount, mount_from_script_path, path_session_sync, path_session_sync_script,
  path_session_sync_blocked, quoted, js_string_literal, script_page, handle_session_sync_script,
}
use go_vai_oidc.Script.Literals.{js_string_literal-mount}

none-ne-some : {m : Str} → ◌≡◌ {A = Option Str} none (some m) → ⊥
none-ne-some h = cc

append-longer : (c : ℕ) (m suffix : Str) → c ∷ (m ++ suffix) ≢ suffix
append-longer c m suffix h =
    let sizes : suc (length (m ++ suffix)) ≡ length suffix = ap length h in
    absurd (omega (arith, sizes, length-append m suffix))

cut_suffix-append : (m suffix : Str) → cut_suffix (m ++ suffix) suffix ≡ some m
unfolding cut_suffix
cut_suffix-append [] [] = unfold str_eq in refl
cut_suffix-append [] (c ∷ s) = rw (str_eq_self (c ∷ s)) refl
cut_suffix-append (c ∷ m) suffix =
    rw (str_eq-ne (c ∷ (m ++ suffix)) suffix (append-longer c m suffix), cut_suffix-append m suffix)
      refl

whole_suffix : (s suffix m : Str) → str_eq s suffix ≡ true → some [] ≡ some m → s ≡ m ++ suffix
whole_suffix s suffix m whole h =
    let none_before : [] ≡ m = some-eq h in
    subst (λ front. s ≡ front ++ suffix) none_before ((str_eq_iff s suffix).0 whole)

cut_suffix-some : (s suffix m : Str) → cut_suffix s suffix ≡ some m → s ≡ m ++ suffix
unfolding cut_suffix
cut_suffix-some [] suffix m h = elim (Bool-cases (str_eq [] suffix)) [
  | inl whole ↦ whole_suffix [] suffix m whole (rw whole at h)
  | inr other ↦ absurd (none-ne-some (rw other at h))
]
cut_suffix-some (c ∷ s) suffix m h = elim (Bool-cases (str_eq (c ∷ s) suffix)) [
  | inl whole ↦ whole_suffix (c ∷ s) suffix m whole (rw whole at h)
  | inr other ↦ behind (cut_suffix s suffix) (cut_suffix-some s suffix) (rw other at h)
]
  where
    behind :
        (rest : Option Str)
        → ((front : Str) → rest ≡ some front → s ≡ front ++ suffix)
        → before_suffix c rest ≡ some m
        → c ∷ s ≡ m ++ suffix
    behind none found h = absurd (none-ne-some h)
    behind (some front) found h =
        let same : c ∷ front ≡ m = some-eq h in
        subst (λ t. c ∷ s ≡ t ++ suffix) same (ap (λ t. c ∷ t) (found front refl))

abbrev pub IsMounted : Str → Str → Type 0
IsMounted path mount =
    (path ≡ mount ++ path_session_sync_script) × All (λ c. is_mount_byte c ≡ true) mount

mount_iff :
    (mount : Str)
    → (any (λ c. not (is_mount_byte c)) mount ≡ false) ↔ All (λ c. is_mount_byte c ≡ true) mount
mount_iff [] = (λ h. tt, λ h. refl)
mount_iff (c ∷ s) = (
  λ h. (ground arith, (mount_iff s).0 (ground arith)),
  λ (here, rest). rw (here, (mount_iff s).1 rest) refl,
)

mount_from_script_path_iff :
    (path mount : Str) → (mount_from_script_path path ≡ some mount) ↔ IsMounted path mount
unfolding mount_from_script_path
mount_from_script_path_iff path mount = (
  λ h. found (cut_suffix path path_session_sync_script) refl h,
  λ (e, safe).
      rw (e, cut_suffix-append mount path_session_sync_script, (mount_iff mount).1 safe) refl,
)
  where
    found :
        (front : Option Str)
        → cut_suffix path path_session_sync_script ≡ front
        → checked_mount front ≡ some mount
        → IsMounted path mount
    found none e h = absurd (none-ne-some h)
    found (some m) e h = elim (Bool-cases (any (λ c. not (is_mount_byte c)) m)) [
      | inl bad ↦ absurd (none-ne-some (rw bad at h))
      | inr good ↦
          let same : m ≡ mount = some-eq (rw good at h) in
          subst (IsMounted path) same
            (cut_suffix-some path path_session_sync_script m e, (mount_iff m).0 good)
    ]

-- The script that drives the endpoints of a mount: each placeholder of the source is replaced by the
-- quoted path of the endpoint.
abbrev pub drives : Str → Str → Str
drives source mount =
    replace
      ((codes "__VAIOIDC_SYNC_ENDPOINT__", quoted (mount ++ path_session_sync))
        ∷ (codes "__VAIOIDC_BLOCKED_ENDPOINT__", quoted (mount ++ path_session_sync_blocked))
        ∷ [])
      source

All-append :
    (xs ys : Str)
    → All (λ c. is_mount_byte c ≡ true) xs
    → All (λ c. is_mount_byte c ≡ true) ys
    → All (λ c. is_mount_byte c ≡ true) (xs ++ ys)
All-append [] ys h k = k
All-append (x ∷ xs) ys (p, h) k = (p, All-append xs ys h k)

route_literal :
    (mount route : Str)
    → All (λ c. is_mount_byte c ≡ true) mount
    → All (λ c. is_mount_byte c ≡ true) route
    → js_string_literal (mount ++ route) ≡ quoted (mount ++ route)
route_literal mount route safe own = js_string_literal-mount _ (All-append mount route safe own)

sync_route : All (λ c. is_mount_byte c ≡ true) path_session_sync
unfolding codes
sync_route = ground arith

blocked_route : All (λ c. is_mount_byte c ≡ true) path_session_sync_blocked
unfolding codes
blocked_route = ground arith

-- The path, and both endpoints, are routes that the middleware of the consumer is told to skip.
abbrev pub AreSkipped : Str → Str → Type 0
AreSkipped path mount =
    Memᴰ path (skip_paths_with_prefix mount)
    × Memᴰ (mount ++ path_session_sync) (skip_paths_with_prefix mount)
    × Memᴰ (mount ++ path_session_sync_blocked) (skip_paths_with_prefix mount)

IsMounted-AreSkipped : (path mount : Str) → IsMounted path mount → AreSkipped path mount
unfolding skip_paths_with_prefix
IsMounted-AreSkipped path mount (e, safe) =
    let six = Memᴰ.tail (Memᴰ.tail (Memᴰ.tail (Memᴰ.tail (Memᴰ.tail (Memᴰ.head e))))) in
    (
      six,
      Memᴰ.tail (Memᴰ.tail (Memᴰ.tail (Memᴰ.tail (Memᴰ.head refl)))),
      Memᴰ.tail (Memᴰ.tail (Memᴰ.tail (Memᴰ.tail (Memᴰ.tail (Memᴰ.tail (Memᴰ.head refl)))))),
    )

served_by :
    (source : Str) (o : Option Str)
    → (script_page source o).status_code ≡ 200
    → (mount : Str) × (o ≡ some mount)
served_by source none h = absurd (omega (arith, h))
served_by source (some mount) h = (mount, refl)

page_for :
    (source path mount : Str)
    → IsMounted path mount
    → handle_session_sync_script source path ≡ script_page source (some mount)
unfolding handle_session_sync_script
page_for source path mount m = rw ((mount_from_script_path_iff path mount).1 m) refl

body_for :
    (source path mount : Str)
    → IsMounted path mount
    → (handle_session_sync_script source path).body ≡ drives source mount
body_for source path mount m =
    rw
      (
        page_for source path mount m,
        route_literal mount path_session_sync m.1 sync_route,
        route_literal mount path_session_sync_blocked m.1 blocked_route,
      )
      refl

-- A browser is served the script, and then with the endpoints of the mount that it fetched it at,
-- exactly when the path is that mount's route of the script and the mount is written in letters,
-- digits and the four signs of a path; all three are routes that the middleware is told to skip.
pub handle_session_sync_script_iff :
    (source path : Str)
    → ((handle_session_sync_script source path).status_code ≡ 200) ↔ (
        (mount : Str) × IsMounted path mount
        × ((handle_session_sync_script source path).body ≡ drives source mount)
        × AreSkipped path mount)
unfolding handle_session_sync_script
handle_session_sync_script_iff source path = (
  λ h.
      let (mount, e) = served_by source (mount_from_script_path path) h in
      let m = (mount_from_script_path_iff path mount).0 e in
      (mount, m, body_for source path mount m, IsMounted-AreSkipped path mount m),
  λ (mount, m, body, skipped). ap (λ page. page.status_code) (page_for source path mount m),
)
