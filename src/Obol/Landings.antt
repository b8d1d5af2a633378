-- ===== src/Obol/Landings.antt =====
-- obolresolver/obolresolver.go: which landing URLs of the service are carried to the callback.
use mathlib.Core.List.{Memᴰ}
use go_vai_oidc.Prelude.{
  ◌≡◌, refl, ◌≢◌, sym, ◌↔◌, ◌⊎◌, inl, inr, Bool, true, false, ◌&&◌, ◌||◌, not, Option, none, some,
  List, [], ◌∷◌, arith, All, Bool-cases, some-eq,
}
use go_vai_oidc.Prelude.Text.{
  Str, codes, str_eq, str_eq_iff, is_empty, to_lower, put_lower-full, trim_space, str_eq_self,
}
use go_vai_oidc.User.{landing_decision_redirects, redirect_target}
use go_vai_oidc.Obol.{
  IdentityEnsureLanding, ParsedUrl, normalize_hosts, host_allowed, pins, is_web_url, admit_landing,
}

-- What is compared of a configured host.
abbrev pub normalized : Str → Str
normalized h = to_lower (trim_space h)

-- No host is pinned, or the host is one of those that are, in any case of its letters.
abbrev pub HostAdmitted : List Str → Str → Type 0
HostAdmitted configured host =
    All (λ h. normalized h ≡ []) configured
    ⊎ ((h : Str) × Memᴰ h configured × (normalized h ≡ to_lower host))

abbrev IsWebUrl : List Str → Option ParsedUrl → Type 0
IsWebUrl configured parsed =
    (u : ParsedUrl) × (parsed ≡ some u)
    × ((u.scheme ≡ codes "http") ⊎ (u.scheme ≡ codes "https"))
    × (u.host ≢ [])
    × (u.has_userinfo ≡ false)
    × HostAdmitted configured u.host

-- A landing that moves the browser: its decision is one that redirects, and its URL is an absolute
-- http or https URL without credentials on an admitted host.
pub record IsFollowable (parse : Str → Option ParsedUrl) (configured : List Str)
    (l : IdentityEnsureLanding) : Type 0 where
  pub redirects : landing_decision_redirects l.decision ≡ true
  pub written : l.landing_url ≢ []
  pub web : IsWebUrl configured (parse l.landing_url)

empty_iff : (s : Str) → (is_empty s ≡ true) ↔ (s ≡ [])
empty_iff [] = (λ h. refl, λ h. refl)
empty_iff (c ∷ s) = (λ h. cc, λ h. cc)

full_iff : (s : Str) → (is_empty s ≡ false) ↔ (s ≢ [])
full_iff [] = (λ h. cc, λ h. absurd (h refl))
full_iff (c ∷ s) = (λ h e. cc, λ h. refl)

unpinned_iff :
    (hs : List Str) → (pins (normalize_hosts hs) ≡ false) ↔ All (λ h. normalized h ≡ []) hs
unfolding normalize_hosts
unpinned_iff [] = (λ h. tt, λ h. refl)
unpinned_iff (h ∷ hs) = elim (Bool-cases (is_empty (normalized h))) [
  | inl blank ↦
      rw blank (λ e. ((empty_iff _).0 blank, (unpinned_iff hs).0 e), λ p. (unpinned_iff hs).1 p.1)
  | inr full ↦ rw full (λ e. cc, λ p. absurd ((full_iff _).0 full p.0))
]

host_allowed→Mem :
    (host : Str) (hs : List Str)
    → host_allowed host (normalize_hosts hs) ≡ true
    → (h : Str) × Memᴰ h hs × (normalized h ≡ to_lower host)
unfolding normalize_hosts host_allowed
host_allowed→Mem host [] e = cc
host_allowed→Mem host (h ∷ hs) e = elim (Bool-cases (is_empty (normalized h))) [
  | inl blank ↦
      let (k, m, same) = host_allowed→Mem host hs (rw blank at e) in (k, Memᴰ.tail m, same)
  | inr full ↦ elim (Bool-cases (str_eq (to_lower host) (normalized h))) [
    | inl here ↦ (h, Memᴰ.head refl, sym ((str_eq_iff _ _).0 here))
    | inr other ↦
        let (k, m, same) = host_allowed→Mem host hs (rw (full, other) at e) in
        (k, Memᴰ.tail m, same)
  ]
]

Mem→host_allowed :
    (host h : Str) (hs : List Str)
    → is_empty (to_lower host) ≡ false
    → Memᴰ h hs
    → normalized h ≡ to_lower host
    → host_allowed host (normalize_hosts hs) ≡ true
unfolding normalize_hosts host_allowed
Mem→host_allowed host h [] full m same = elim m [ ]
Mem→host_allowed host h (k ∷ hs) full (Memᴰ.head e) same =
    let kept : is_empty (normalized k) ≡ false = rw (← e, same) full in
    let found : str_eq (to_lower host) (normalized k) ≡ true =
      rw (← e, same) (str_eq_self (to_lower host)) in
    rw (kept, found) refl
Mem→host_allowed host h (k ∷ hs) full (Memᴰ.tail m) same =
    elim (Bool-cases (is_empty (normalized k))) [
      | inl blank ↦ rw blank (Mem→host_allowed host h hs full m same)
      | inr kept ↦
          let later = Mem→host_allowed host h hs full m same in rw kept (ground (arith, later))
    ]

to_lower-full : (s : Str) → s ≢ [] → is_empty (to_lower s) ≡ false
unfolding to_lower
to_lower-full [] h = absurd (h refl)
to_lower-full (c ∷ s) h = put_lower-full c (to_lower s)

and_false : (b : Bool) → (b && false) ≡ false
and_false true = refl
and_false false = refl

admitted_iff :
    (configured : List Str) (host : Str)
    → host ≢ []
    → ((pins (normalize_hosts configured) && not (host_allowed host (normalize_hosts configured)))
        ≡ false)
      ↔ HostAdmitted configured host
admitted_iff configured host full = (accepts, accepted)
  where
    accepts :
        (pins (normalize_hosts configured) && not (host_allowed host (normalize_hosts configured)))
          ≡ false
        → HostAdmitted configured host
    accepts e = elim (Bool-cases (pins (normalize_hosts configured))) [
      | inr none_pinned ↦ inl ((unpinned_iff configured).0 none_pinned)
      | inl pinned ↦ inr (host_allowed→Mem host configured (ground arith))
    ]

    accepted :
        HostAdmitted configured host
        → (pins (normalize_hosts configured)
            && not (host_allowed host (normalize_hosts configured)))
          ≡ false
    accepted (inl blanks) = rw ((unpinned_iff configured).1 blanks) refl
    accepted (inr (h, m, same)) =
        let yes_found = Mem→host_allowed host h configured (to_lower-full host full) m same in
        rw yes_found (and_false (pins (normalize_hosts configured)))

none-ne-some : {A : Type 0} {u : A} → ◌≡◌ {A = Option A} none (some u) → ⊥
none-ne-some h = cc

scheme_iff :
    (s : Str)
    → ((str_eq s (codes "http") || str_eq s (codes "https")) ≡ true)
      ↔ ((s ≡ codes "http") ⊎ (s ≡ codes "https"))
scheme_iff s = ground (arith, str_eq_iff s (codes "http"), str_eq_iff s (codes "https"))

three : (a b c : Bool) → (a && b && c) ≡ true → (a ≡ true) × (b ≡ true) × (c ≡ true)
three a b c h = ground arith

not_either : (a b : Bool) → not (a || b) ≡ true → (a ≡ false) × (b ≡ false)
not_either a b h = ground arith

not-true : (b : Bool) → not b ≡ true → b ≡ false
not-true b h = ground arith

is_web_url_iff :
    (configured : List Str) (parsed : Option ParsedUrl)
    → (is_web_url (normalize_hosts configured) parsed ≡ true) ↔ IsWebUrl configured parsed
is_web_url_iff configured none = (λ h. cc, λ p. absurd (none-ne-some p.1))
is_web_url_iff configured (some u) = (
  λ h.
      let (scheme, place, host) = three _ _ _ h in
      let (full, bare) = not_either (is_empty u.host) u.has_userinfo place in
      let named = (full_iff u.host).0 full in
      (
        u,
        refl,
        (scheme_iff u.scheme).0 scheme,
        named,
        bare,
        (admitted_iff configured u.host named).0 (not-true _ host),
      ),
  λ (v, e, scheme, named, bare, host).
      let same : v ≡ u = sym (some-eq e) in web_of same scheme named bare host,
)
  where
    web_of :
        {v : ParsedUrl}
        → v ≡ u
        → (v.scheme ≡ codes "http") ⊎ (v.scheme ≡ codes "https")
        → v.host ≢ []
        → v.has_userinfo ≡ false
        → HostAdmitted configured v.host
        → is_web_url (normalize_hosts configured) (some u) ≡ true
    web_of {v} same scheme named bare host =
        let placed : not (is_empty v.host || v.has_userinfo) ≡ true =
          rw ((full_iff v.host).1 named, bare) refl in
        rw
          (
            ← same,
            (scheme_iff v.scheme).1 scheme,
            placed,
            (admitted_iff configured v.host named).1 host,
          )
          refl

-- The URL of a landing moves the browser exactly when the landing is one to follow, and it is then
-- the URL that the service sent.
pub admit_landing_iff :
    (parse : Str → Option ParsedUrl) (configured : List Str) (l : IdentityEnsureLanding) (url : Str)
    → (redirect_target (admit_landing parse (some l) (normalize_hosts configured)) ≡ some url)
      ↔ (IsFollowable parse configured l × (url ≡ l.landing_url))
unfolding admit_landing redirect_target
admit_landing_iff parse configured l url = (follows, followed)
  where
    follows :
        redirect_target (admit_landing parse (some l) (normalize_hosts configured)) ≡ some url
        → IsFollowable parse configured l × (url ≡ l.landing_url)
    follows h = elim (Bool-cases (is_empty l.landing_url)) [
      | inl blank ↦ absurd (none-ne-some (rw blank at h))
      | inr full ↦ elim (Bool-cases (landing_decision_redirects l.decision)) [
        | inr stays ↦ absurd (none-ne-some (rw (full, stays) at h))
        | inl moves ↦
            elim (Bool-cases (is_web_url (normalize_hosts configured) (parse l.landing_url))) [
              | inr bad ↦ absurd (none-ne-some (rw (full, moves, bad) at h))
              | inl good ↦ (
                record {
                  redirects = moves;
                  written = (full_iff _).0 full;
                  web = (is_web_url_iff configured _).0 good;
                },
                sym (some-eq (rw (full, moves, good, full) at h)),
              )
            ]
      ]
    ]

    followed :
        IsFollowable parse configured l × (url ≡ l.landing_url)
        → redirect_target (admit_landing parse (some l) (normalize_hosts configured)) ≡ some url
    followed (f, same) =
        let full = (full_iff _).1 f.written in
        rw (full, f.redirects, (is_web_url_iff configured _).1 f.web, same, full) refl
